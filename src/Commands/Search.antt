-- ===== src/Commands/Search.antt =====
-- src/commands.c: `struct at_handler`, the comparators ext_cmp and ext_match, and the search tree of
-- <search.h> that they order. That tsearch() may also rotate the
-- tree is left out.
use meego_cellular_matd.Prelude.{
  Ordering, Bool, true, false, Option, none, some, Bytes, ltb, if◌then◌else◌, length, get_or,
}
use meego_cellular_matd.Libc.Ctype.{is_alnum, strncasecmp, strcasecmp}

-- `ext_cmp`, on two names.
unfoldable pub ext_cmp : Bytes → Bytes → Ordering
unfolding strncasecmp strcasecmp
ext_cmp a b =
    let alen = length a in
    let blen = length b in
    if ltb blen alen
    then elim (strncasecmp a b blen) [
      | Ordering.lt ↦ Ordering.lt
      | Ordering.eq ↦ Ordering.gt
      | Ordering.gt ↦ Ordering.gt
    ]
    else if ltb alen blen
    then elim (strncasecmp a b alen) [
      | Ordering.lt ↦ Ordering.lt
      | Ordering.eq ↦ Ordering.lt
      | Ordering.gt ↦ Ordering.gt
    ]
    else strcasecmp a b

-- `ext_match`, a request against the name of a handler. A handler is equal to, or has fewer
-- characters than, the request.
unfoldable pub ext_match : Bytes → Bytes → Ordering
unfolding strncasecmp
ext_match cmd name =
    let len = length name in
    elim (strncasecmp cmd name len) [
      | Ordering.lt ↦ Ordering.lt
      | Ordering.gt ↦ Ordering.gt
      | Ordering.eq ↦ if is_alnum (get_or cmd len 0) then Ordering.gt else Ordering.eq
    ]

pub data Tree (H : Type 0) : Type 0 where
  leaf : Tree H
  node : Tree H → Bytes → H → Tree H → Tree H

abbrev pub by_order {ℓ} : {A : Type ℓ} → Ordering → A → A → A → A
by_order Ordering.lt below same above = below
by_order Ordering.eq below same above = same
by_order Ordering.gt below same above = above

module _ {H : Type 0} where
  -- `tfind (req, root, ext_match)`
  unfoldable pub tfind : Bytes → Tree H → Option H
  tfind req leaf = none
  tfind req (node l name h r) = elim (ext_match req name) [
    | Ordering.lt ↦ tfind req l
    | Ordering.eq ↦ some h
    | Ordering.gt ↦ tfind req r
  ]

  -- `tsearch (h, root, ext_cmp)`: the new tree, and whether the handler was added to it.
  unfoldable pub tsearch : Bytes → H → Tree H → Tree H × Bool
  tsearch name h leaf = (node leaf name h leaf, true)
  tsearch name h (node l name' h' r) =
      let (l', added_l) = tsearch name h l in
      let (r', added_r) = tsearch name h r in
      by_order (ext_cmp name name') (node l' name' h' r, added_l) (node l name' h' r, false)
        (node l name' h' r', added_r)

  -- A search by the order of registration.
  unfoldable pub lookup : Bytes → Tree H → Option H
  lookup key leaf = none
  lookup key (node l name h r) = elim (strcasecmp key name) [
    | Ordering.lt ↦ lookup key l
    | Ordering.eq ↦ some h
    | Ordering.gt ↦ lookup key r
  ]
