-- ===== src/Ofono/Tones/Sent.antt =====
-- plugins/ofono/voicecall.c: the loop of AT+VTS ends, and what it sends.
use meego_cellular_matd.Prelude.{
  ℕ, ◌≤◌, ◌<◌, ◌≡◌, ◌⊎◌, true, Option, some, List, [], ◌∷◌, Bytes, length,
}
use meego_cellular_matd.Libc.Scanf.{Directive, space, literal, uint, char, offset}
use meego_cellular_matd.Modem.{at_error, at_cme_enotsup, at_cme_einval}
use meego_cellular_matd.Ofono.Tones.{
  is_tone, Tone, tone, no_tone, Tones, tones, no_tones, Turn, again, ended,
}

-- The errors of AT+VTS itself.
abbrev pub IsRefusal : ℕ → Type 0
IsRefusal err = (err ≡ at_cme_enotsup) ⊎ ((err ≡ at_cme_einval) ⊎ (err ≡ at_error))

abbrev pub AllTones : Bytes → Type 0
AllTones [] = Unit {0}
AllTones (c ∷ s) = (is_tone c ≡ true) × AllTones s

-- What is stored fits in the buffer with its nul.
abbrev Fits : Bytes → Type 0
Fits stored = AllTones stored × (length stored < 256)

-- What may come out: up to 255 tones of the list of AT+VTS=?, or an error.
abbrev pub Sendable : Tones → Type 0
Sendable (tones stored) = AllTones stored × (length stored < 256)
Sendable (no_tones err) = IsRefusal err

-- A tone is scanned with a place behind the comma that is not the place it was scanned at.
abbrev Moves : Tone → Type 0
Moves (tone ch len len_wc) = (k : ℕ) → len_wc ≡ some k → 1 ≤ k
Moves (no_tone err) = IsRefusal err

abbrev timed_rest : List Directive
timed_rest =
    space
    ∷ char
    ∷ space
    ∷ literal b','
    ∷ space
    ∷ uint
    ∷ space
    ∷ literal b'}'
    ∷ space
    ∷ offset
    ∷ literal b','
    ∷ space
    ∷ offset
    ∷ []

abbrev single_rest : List Directive
single_rest = space ∷ offset ∷ literal b',' ∷ space ∷ offset ∷ []

-- A turn either ends with something that may come out, or goes on behind at least one byte.
abbrev Goes : Bytes → Turn → Type 0
Goes req (again more rest) = Fits more × (length rest < length req)
Goes req (ended result) = Sendable result

abbrev pub Ends : Option Tones → Type 0
Ends o = (result : Tones) × (o ≡ some result) × Sendable result
