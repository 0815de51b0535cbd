-- ===== src/Commands/Key.antt =====
-- The names that a request can call, and what they ask of the names in the tree.
use meego_cellular_matd.Prelude.{ℕ, ◌<◌, ◌≡◌, true, false, [], ◌∷◌, arith, Bytes, ◌==◌, length}
use meego_cellular_matd.Libc.Ctype.{is_alnum, is_alpha, to_lower}
use meego_cellular_matd.Commands.{in_name}
use meego_cellular_matd.Commands.Forms.{AllInName}
use meego_cellular_matd.Commands.Search.{Tree, leaf, node}
use meego_cellular_matd.Commands.Order.{IsName, AllAlnum, Before, Fits, AllNames}

-- The name of an extended command as it may stand in a request.
pub record IsKey (key : Bytes) : Type 0 where
  pub head : ℕ
  pub tail : Bytes
  pub parts : key ≡ head ∷ tail
  pub all : AllAlnum tail
  pub no_letter : is_alpha head ≡ false
  pub no_ampersand : (head == b'&') ≡ false
  pub named : in_name head ≡ true

alnum-in_name : (c : ℕ) → is_alnum c ≡ true → in_name c ≡ true
alnum-in_name c h = ground arith

pub AllAlnum-AllInName : (s : Bytes) → AllAlnum s → AllInName s
AllAlnum-AllInName [] h = tt
AllAlnum-AllInName (c ∷ s) h = (alnum-in_name c h.0, AllAlnum-AllInName s h.1)

pub IsKey-AllInName : (key : Bytes) → IsKey key → AllInName key
IsKey-AllInName key k = rw k.parts (k.named, AllAlnum-AllInName k.tail k.all)

pub IsKey-IsName : (key : Bytes) → IsKey key → IsName key
IsKey-IsName key k = rw k.parts k.all

pub IsKey-length : (key : Bytes) → IsKey key → 0 < length key
IsKey-length key k = rw k.parts (omega arith)

-- No name in the tree goes on behind the key with a character that sorts before the question mark,
-- which sorts behind the equal sign.
abbrev pub Fitting : Bytes → Bytes → Type 0
Fitting key n = Fits key (b'?' ∷ []) n

pub Before-equal : (key n s : Bytes) → Before key (b'?' ∷ []) n → Before key (b'=' ∷ s) n
unfolding to_lower
Before-equal [] [] s h = tt
Before-equal [] (y ∷ n) s h = omega arith
Before-equal (x ∷ key) [] s h = tt
Before-equal (x ∷ key) (y ∷ n) s h = Before-equal key n s h

pub Before-query : (key n s : Bytes) → Before key (b'?' ∷ []) n → Before key (b'?' ∷ s) n
Before-query [] [] s h = tt
Before-query [] (y ∷ n) s h = h
Before-query (x ∷ key) [] s h = tt
Before-query (x ∷ key) (y ∷ n) s h = Before-query key n s h

pub AllNames-map :
    {H : Type 0} (P Q : Bytes → Type 0) (t : Tree H)
    → ((n : Bytes) → P n → Q n)
    → AllNames P t
    → AllNames Q t
AllNames-map P Q leaf f all = tt
AllNames-map P Q (node l n h r) f (p, al, ar) =
    (f n p, AllNames-map P Q l f al, AllNames-map P Q r f ar)

pub Fitting-equal : (key s n : Bytes) → Fitting key n → Fits key (b'=' ∷ s) n
Fitting-equal key s n f = (f.0, Before-equal key n s f.1)

pub Fitting-query : (key s n : Bytes) → Fitting key n → Fits key (b'?' ∷ s) n
Fitting-query key s n f = (f.0, Before-query key n s f.1)
