-- ===== src/Dummy/Bounds.antt =====
-- plugins/dummy.c: the ranges of the parameters.
use meego_cellular_matd.Prelude.{
  ℕ, ◌%◌, ◌≤◌, ◌≡◌, refl, inl, inr, Bool, true, false, ◌||◌, Option, none, some, List, arith, Bytes,
  ltb, ◌==◌, if◌then◌else◌, ltb_false→le, Bool-cases,
}
use mathlib.Core.Option.{some-injective}
use meego_cellular_matd.Modem.{at_error}
use meego_cellular_matd.Libc.Scanf.{Arg, num_at, count_of}
use meego_cellular_matd.Dummy.{
  Dummy, set_s6, set_byte, byte_to, set_s7, set_s8, set_s10, set_cpnstat, cpnstat_to, set_dr, dr_to,
  store_ds, ds_to, set_ds, scan_number, scan_ds,
}

-- The ranges in which the set commands accept the parameters.
pub record InRange (d : Dummy) : Type 0 where
  pub s6 : (2 ≤ d.s6) × (d.s6 ≤ 10)
  pub cpnstat : d.cpnstat ≤ 1
  pub dr : d.dr ≤ 1
  pub ds_dir : d.ds_dir ≤ 3
  pub ds_nego : d.ds_nego ≤ 1
  pub ds_dict : (256 ≤ d.ds_dict) × (d.ds_dict ≤ 65535)
  pub ds_string : (6 ≤ d.ds_string) × (d.ds_string ≤ 250)
  pub s7 : (1 ≤ d.s7) × (d.s7 ≤ 255)
  pub s8 : (1 ≤ d.s8) × (d.s8 ≤ 255)
  pub s10 : (1 ≤ d.s10) × (d.s10 ≤ 255)

-- What the guard of `set_ds` lets pass.
abbrev bad_ds : ℕ → ℕ → ℕ → ℕ → Bool
bad_ds dir nego dict str =
    ltb 3 dir || (ltb 1 nego || (ltb dict 256 || (ltb 65535 dict || (ltb str 6 || ltb 250 str))))

record GoodDs (dir nego dict str : ℕ) : Type 0 where
  dir_fits : dir ≤ 3
  nego_fits : nego ≤ 1
  dict_fits : (256 ≤ dict) × (dict ≤ 65535)
  str_fits : (6 ≤ str) × (str ≤ 250)

or_false : (a b : Bool) → (a || b) ≡ false → (a ≡ false) × (b ≡ false)
or_false true b h = cc
or_false false b h = (refl, h)

good_ds : (dir nego dict str : ℕ) → bad_ds dir nego dict str ≡ false → GoodDs dir nego dict str
good_ds dir nego dict str h =
    let (a, h) = or_false _ _ h in
    let (b, h) = or_false _ _ h in
    let (c, h) = or_false _ _ h in
    let (d, h) = or_false _ _ h in
    let (e, f) = or_false _ _ h in
    record {
      dir_fits = ltb_false→le 3 dir a;
      nego_fits = ltb_false→le 1 nego b;
      dict_fits = (ltb_false→le dict 256 c, ltb_false→le 65535 dict d);
      str_fits = (ltb_false→le str 6 e, ltb_false→le 250 str f);
    }

store_ds-InRange :
    (d : Dummy) (dir nego dict str : ℕ) → InRange d → InRange (store_ds d dir nego dict str).0
unfolding store_ds
store_ds-InRange d dir nego dict str r = elim (Bool-cases (bad_ds dir nego dict str)) [
  | inl bad ↦ rw bad r
  | inr good ↦
      let g = good_ds dir nego dict str good in
      rw good (record {
        s6 = r.s6;
        cpnstat = r.cpnstat;
        dr = r.dr;
        ds_dir = omega arith;
        ds_nego = omega arith;
        ds_dict = omega (arith, g.dict_fits.0, g.dict_fits.1);
        ds_string = omega (arith, g.str_fits.0, g.str_fits.1);
        s7 = r.s7;
        s8 = r.s8;
        s10 = r.s10;
      })
]

set_byte-range : (val b : ℕ) → set_byte val ≡ some b → (1 ≤ b) × (b ≤ 255)
unfolding set_byte
set_byte-range val b h = elim (Bool-cases (ltb val 1 || ltb 255 val)) [
  | inl bad ↦ cc (rw bad at h)
  | inr good ↦
      let (low, high) = or_false _ _ good in
      let same = some-injective (val % 256) b (rw good at h) in
      (
        omega (arith, same, ltb_false→le val 1 low, ltb_false→le 255 val high),
        omega (arith, same, ltb_false→le val 1 low, ltb_false→le 255 val high),
      )
]

set_s6-InRange : (d : Dummy) (val : ℕ) → InRange d → InRange (set_s6 d val).0
unfolding set_s6
set_s6-InRange d val r = elim (Bool-cases (ltb val 2 || ltb 10 val)) [
  | inl bad ↦ rw bad r
  | inr good ↦
      let (low, high) = or_false _ _ good in
      let range : (2 ≤ val % 16) × (val % 16 ≤ 10) = (
        omega (arith, ltb_false→le val 2 low, ltb_false→le 10 val high),
        omega (arith, ltb_false→le val 2 low, ltb_false→le 10 val high),
      ) in
      rw good (record {
        s6 = range;
        cpnstat = r.cpnstat;
        dr = r.dr;
        ds_dir = r.ds_dir;
        ds_nego = r.ds_nego;
        ds_dict = r.ds_dict;
        ds_string = r.ds_string;
        s7 = r.s7;
        s8 = r.s8;
        s10 = r.s10;
      })
]

byte_to-InRange :
    (d : Dummy) (store : ℕ → Dummy) (o : Option ℕ)
    → ((b : ℕ) → o ≡ some b → InRange (store b))
    → InRange d
    → InRange (byte_to d store o).0
byte_to-InRange d store none k r = r
byte_to-InRange d store (some b) k r = k b refl

set_s7-InRange : (d : Dummy) (val : ℕ) → InRange d → InRange (set_s7 d val).0
unfolding set_s7
set_s7-InRange d val r =
    byte_to-InRange d (λ b. record d { s7 = b }) (set_byte val)
      (λ b good. record {
        s6 = r.s6;
        cpnstat = r.cpnstat;
        dr = r.dr;
        ds_dir = r.ds_dir;
        ds_nego = r.ds_nego;
        ds_dict = r.ds_dict;
        ds_string = r.ds_string;
        s7 = set_byte-range val b good;
        s8 = r.s8;
        s10 = r.s10;
      })
      r

set_s8-InRange : (d : Dummy) (val : ℕ) → InRange d → InRange (set_s8 d val).0
unfolding set_s8
set_s8-InRange d val r =
    byte_to-InRange d (λ b. record d { s8 = b }) (set_byte val)
      (λ b good. record {
        s6 = r.s6;
        cpnstat = r.cpnstat;
        dr = r.dr;
        ds_dir = r.ds_dir;
        ds_nego = r.ds_nego;
        ds_dict = r.ds_dict;
        ds_string = r.ds_string;
        s7 = r.s7;
        s8 = set_byte-range val b good;
        s10 = r.s10;
      })
      r

set_s10-InRange : (d : Dummy) (val : ℕ) → InRange d → InRange (set_s10 d val).0
unfolding set_s10
set_s10-InRange d val r =
    byte_to-InRange d (λ b. record d { s10 = b }) (set_byte val)
      (λ b good. record {
        s6 = r.s6;
        cpnstat = r.cpnstat;
        dr = r.dr;
        ds_dir = r.ds_dir;
        ds_nego = r.ds_nego;
        ds_dict = r.ds_dict;
        ds_string = r.ds_string;
        s7 = r.s7;
        s8 = r.s8;
        s10 = set_byte-range val b good;
      })
      r

cpnstat_to-InRange : (d : Dummy) (o : Option ℕ) → InRange d → InRange (cpnstat_to d o).0
cpnstat_to-InRange d none r = r
cpnstat_to-InRange d (some n) r = elim (Bool-cases (ltb 1 n)) [
  | inl bad ↦ rw bad r
  | inr good ↦ rw good (record {
    s6 = r.s6;
    cpnstat = omega arith;
    dr = r.dr;
    ds_dir = r.ds_dir;
    ds_nego = r.ds_nego;
    ds_dict = r.ds_dict;
    ds_string = r.ds_string;
    s7 = r.s7;
    s8 = r.s8;
    s10 = r.s10;
  })
]

dr_to-InRange : (d : Dummy) (o : Option ℕ) → InRange d → InRange (dr_to d o).0
dr_to-InRange d none r = r
dr_to-InRange d (some n) r = elim (Bool-cases (ltb 1 n)) [
  | inl bad ↦ rw bad r
  | inr good ↦ rw good (record {
    s6 = r.s6;
    cpnstat = r.cpnstat;
    dr = omega arith;
    ds_dir = r.ds_dir;
    ds_nego = r.ds_nego;
    ds_dict = r.ds_dict;
    ds_string = r.ds_string;
    s7 = r.s7;
    s8 = r.s8;
    s10 = r.s10;
  })
]

range_if : (b : Bool) (x y : Dummy × ℕ) → InRange x.0 → InRange y.0 → InRange (if b then x else y).0
range_if true x y p q = p
range_if false x y p q = q

ds_to-InRange :
    (d : Dummy) (o : Option ℕ) (args : List Arg) → InRange d → InRange (ds_to d o args).0
ds_to-InRange d none args r = r
ds_to-InRange d (some n) args r =
    let a = num_at args 0 in
    let b = num_at args 1 in
    let c = num_at args 2 in
    let e = num_at args 3 in
    let none_set = store_ds d 3 0 256 6 in
    let one_set = store_ds d a 0 256 6 in
    let two_set = store_ds d a b 256 6 in
    let three_set = store_ds d a b c 6 in
    let four_set = store_ds d a b c e in
    let from_four = if n == 4 then four_set else (d, at_error) in
    let from_three = if n == 3 then three_set else from_four in
    let from_two = if n == 2 then two_set else from_three in
    let from_one = if n == 1 then one_set else from_two in
    range_if (n == 0) none_set from_one (store_ds-InRange d 3 0 256 6 r) (
      range_if (n == 1) one_set from_two (store_ds-InRange d a 0 256 6 r) (
        range_if (n == 2) two_set from_three (store_ds-InRange d a b 256 6 r) (
          range_if (n == 3) three_set from_four (store_ds-InRange d a b c 6 r)
            (range_if (n == 4) four_set (d, at_error) (store_ds-InRange d a b c e r) r))))

-- Every set command of the plugin, accepted or refused, keeps all of its parameters in the ranges
-- that the commands check.
pub set-InRange :
    (d : Dummy) (val : ℕ) (req : Bytes)
    → InRange d
    → InRange (set_s6 d val).0
      × InRange (set_s7 d val).0
      × InRange (set_s8 d val).0
      × InRange (set_s10 d val).0
      × InRange (set_cpnstat d req).0
      × InRange (set_dr d req).0
      × InRange (set_ds d req).0
unfolding set_cpnstat set_dr set_ds
set-InRange d val req r = (
  set_s6-InRange d val r,
  set_s7-InRange d val r,
  set_s8-InRange d val r,
  set_s10-InRange d val r,
  cpnstat_to-InRange d (scan_number req) r,
  dr_to-InRange d (scan_number req) r,
  ds_to-InRange d (count_of (scan_ds req)) (scan_ds req).args r,
)
