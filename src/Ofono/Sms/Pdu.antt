-- ===== src/Ofono/Sms/Pdu.antt =====
-- plugins/ofono/sms.c: a message that is typed as a PDU.
