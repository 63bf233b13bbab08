-- ===== src/Cutover/Names/Roundtrip.antt =====
-- What `_encode_query` writes, `_read_name` reads.
use mathlib.Core.List.{append_assoc, append-nil}
use cloudfall.Base.{
  ℕ, zero, suc, ◌+◌, ◌*◌, ◌/◌, ◌%◌, ◌≤◌, ◌<◌, Bool, true, false, not, Option, none, some, List, [],
  ◌∷◌, ◌++◌, length, length-append, ltb, ◌==◌, nat_eq, if◌then◌else◌, ◌≡◌, ◌≢◌, refl, sym, ap, ◌∙◌,
  inl, inr, Bool-cases, arith,
}
use cloudfall.Base.Bytes.{
  get_elem?, get_elem?-drop, slice, take, drop, take_front, drop_front, drop-add, length-drop, all,
  All,
}
use cloudfall.Base.Results.{ok}
use cloudfall.Cutover.Names.{
  Label, join_dots, onto_first, split_dots, rstrip_dots, is_ascii, encode_labels, encode_name, u16,
  unpack_u16, is_pointer, end_at, end_or, read_labels, rounds_for, read_name,
}

-- A label that DNS allows, of ASCII.
abbrev pub IsLabel : Label → Type 0
IsLabel l = (1 ≤ length l) × (length l ≤ 63) × (all is_ascii l ≡ true)

join_dots-onto_first :
    (c : ℕ) (ls : List Label) → ls ≢ [] → join_dots (onto_first c ls) ≡ c ∷ join_dots ls
unfolding join_dots
join_dots-onto_first c [] n = absurd (n refl)
join_dots-onto_first c (l ∷ []) n = refl
join_dots-onto_first c (l ∷ m ∷ rest) n = refl

split_dots-ne-nil : (s : List ℕ) → split_dots s ≢ []
unfolding split_dots
split_dots-ne-nil [] e = cc
split_dots-ne-nil (c ∷ s) e = elim (Bool-cases (c == 46)) [
  | inl dot ↦ let k : ([] ∷ split_dots s) ≡ [] = rw (split_dots, dot) at e in cc
  | inr other ↦ onto_first-ne-nil c (split_dots s) (rw (split_dots, other) at e)
]
  where
    onto_first-ne-nil : (c : ℕ) (ls : List Label) → onto_first c ls ≢ []
    onto_first-ne-nil c [] q = cc
    onto_first-ne-nil c (l ∷ ls) q = cc

-- Joining the parts of a text gives the text.
pub join_dots-split_dots : (s : List ℕ) → join_dots (split_dots s) ≡ s
unfolding split_dots
join_dots-split_dots [] = unfold join_dots in refl
join_dots-split_dots (c ∷ s) = elim (Bool-cases (c == 46)) [
  | inl dot ↦
      rw (split_dots, dot)
        (joined (split_dots s) (split_dots-ne-nil s)
          ∙ ap (λ t. 46 ∷ t) (join_dots-split_dots s)
          ∙ ap (λ d. d ∷ s) (is_dot c dot))
  | inr other ↦
      rw (split_dots, other)
        (join_dots-onto_first c (split_dots s) (split_dots-ne-nil s)
          ∙ ap (λ t. c ∷ t) (join_dots-split_dots s))
]
  where
    is_dot : (c : ℕ) → (c == 46) ≡ true → 46 ≡ c
    is_dot c h = ground arith

    joined : (ls : List Label) → ls ≢ [] → join_dots ([] ∷ ls) ≡ 46 ∷ join_dots ls
    joined [] n = absurd (n refl)
    joined (l ∷ ls) n = unfold join_dots in refl

-- the first bytes, up to a bound, for which a test is made of each
checked_bytes : (ℕ → Bool) → ℕ → Bool
checked_bytes test zero = true
checked_bytes test (suc last) =
    let before = checked_bytes test last in if test last then before else false

byte_of_checked :
    (test : ℕ → Bool) (bound byte : ℕ)
    → byte < bound
    → checked_bytes test bound ≡ true
    → test byte ≡ true
unfolding checked_bytes
byte_of_checked test zero byte small passed = absurd (omega arith)
byte_of_checked test (suc last) byte small passed = ground (arith, byte_of_checked test last byte)

plain_table : checked_bytes (λ n. not (is_pointer n)) 64 ≡ true
unfolding checked_bytes is_pointer nat_eq
plain_table = refl

plain_length : (n : ℕ) → n ≤ 63 → is_pointer n ≡ false
plain_length n h =
    not_true (is_pointer n)
      (byte_of_checked (λ n. not (is_pointer n)) 64 n (omega arith) plain_table)
  where
    not_true : (b : Bool) → not b ≡ true → b ≡ false
    not_true true h = cc
    not_true false h = refl

-- The bytes of a name: each label behind its length, and a zero.
unfoldable pub wire_of : List Label → List ℕ
wire_of [] = 0 ∷ []
wire_of (l ∷ ls) = length l ∷ (l ++ wire_of ls)

pub encode_labels-wire_of : (ls : List Label) → All IsLabel ls → encode_labels ls ≡ ok (wire_of ls)
unfolding encode_labels wire_of
encode_labels-wire_of [] h = refl
encode_labels-wire_of (l ∷ ls) (h, t) = ground (arith, encode_labels-wire_of ls t)

length-wire_of : (ls : List Label) → length ls < length (wire_of ls)
unfolding wire_of
length-wire_of [] = omega arith
length-wire_of (l ∷ ls) = omega (arith, length-append l (wire_of ls), length-wire_of ls)

-- The three rounds of the loop that do not raise.
module _ (rounds : ℕ) (payload : List ℕ) (labels : List Label) (jumps cursor : ℕ) (end : Option ℕ)
    (j : jumps ≤ 32) where
  within : ltb 32 jumps ≡ false
  within = ground arith

  closing_round :
      get_elem? payload cursor ≡ some 0
      → read_labels (suc rounds) payload labels jumps cursor end
        ≡ ok (join_dots labels, end_or end (cursor + 1))
  unfolding read_labels
  closing_round byte =
      let plain = plain_length 0 (omega arith) in
      let zero_byte : ◌==◌ {A = ℕ} 0 0 ≡ true = ground arith in
      rw (read_labels, byte, within, plain, zero_byte)

  label_round :
      (l : Label)
      → IsLabel l
      → get_elem? payload cursor ≡ some (length l)
      → slice payload (cursor + 1) (length l) ≡ l
      → read_labels (suc rounds) payload labels jumps cursor end
        ≡ read_labels rounds payload (labels ++ (l ∷ [])) jumps (cursor + 1 + length l) end
  unfolding read_labels
  label_round l (some_byte, short, ascii) byte label =
      let plain = plain_length (length l) short in
      let more : (length l == 0) ≡ false = ground arith in
      rw (read_labels, byte, within, plain, more, label, ascii)

  jump_round :
      (n pointer : ℕ)
      → get_elem? payload cursor ≡ some n
      → is_pointer n ≡ true
      → unpack_u16 (slice payload cursor 2) ≡ ok pointer
      → read_labels (suc rounds) payload labels jumps cursor end
        ≡ read_labels rounds payload labels (jumps + 1) (pointer % 0x4000) (end_at end (cursor + 2))
  unfolding read_labels
  jump_round n pointer byte marked target = rw (read_labels, byte, within, marked, target)

-- From a place in a payload where the bytes of a name stand, the loop reads that name.
pub read_labels-wire_of :
    (ls : List Label) (rounds : ℕ) (payload : List ℕ) (before : List Label) (jumps cursor : ℕ)
    (end : Option ℕ) (rest : List ℕ)
    → All IsLabel ls
    → drop cursor payload ≡ wire_of ls ++ rest
    → jumps ≤ 32
    → length ls < rounds
    → read_labels rounds payload before jumps cursor end
      ≡ ok (join_dots (before ++ ls), end_or end (cursor + length (wire_of ls)))
unfolding read_labels wire_of
read_labels-wire_of ls zero payload before jumps cursor end rest h here j enough =
    absurd (omega arith)
read_labels-wire_of [] (suc rounds) payload before jumps cursor end rest h here j enough =
    let (byte, _) = get_elem?-drop payload cursor 0 rest here in
    closing_round rounds payload before jumps cursor end j byte
    ∙ ap (λ names. ok (join_dots names, end_or end (cursor + 1))) (sym (append-nil before))
read_labels-wire_of (l ∷ ls) (suc rounds) payload before jumps cursor end rest (h, t) here j
      enough =
    let (byte, behind) =
      get_elem?-drop payload cursor (length l) ((l ++ wire_of ls) ++ rest) here in
    let after : drop (cursor + 1) payload ≡ l ++ (wire_of ls ++ rest) =
      behind ∙ append_assoc l (wire_of ls) rest in
    let label : slice payload (cursor + 1) (length l) ≡ l =
      ap (take (length l)) after ∙ take_front l (wire_of ls ++ rest) in
    let next : drop (cursor + 1 + length l) payload ≡ wire_of ls ++ rest =
      drop-add (cursor + 1) (length l) payload
      ∙ ap (drop (length l)) after
      ∙ drop_front l (wire_of ls ++ rest) in
    let far : cursor + 1 + length l + length (wire_of ls) ≡ cursor + length (wire_of (l ∷ ls)) =
      omega (arith, length-append l (wire_of ls)) in
    label_round rounds payload before jumps cursor end j l h byte label
    ∙ read_labels-wire_of ls rounds payload (before ++ (l ∷ [])) jumps (cursor + 1 + length l) end
        rest t next j (omega arith)
    ∙ ap (λ names. ok (join_dots names, end_or end (cursor + 1 + length l + length (wire_of ls))))
        (append_assoc before (l ∷ []) ls)
    ∙ ap (λ k. ok (join_dots (before ++ (l ∷ ls)), end_or end k)) far

-- A name is read from wherever its bytes stand in a payload.
pub read_name-wire_of :
    (ls : List Label) (payload : List ℕ) (offset : ℕ) (rest : List ℕ)
    → All IsLabel ls
    → drop offset payload ≡ wire_of ls ++ rest
    → read_name payload offset ≡ ok (join_dots ls, offset + length (wire_of ls))
unfolding read_name
read_name-wire_of ls payload offset rest h here =
    read_labels-wire_of ls (rounds_for payload) payload [] 0 offset none rest h here (omega arith) (
      omega (
        arith,
        length-wire_of ls,
        ap length here,
        length-append (wire_of ls) rest,
        length-drop offset payload,
      ))

-- A name that `_encode_query` writes is read back, less its trailing dots, from wherever it stands in
-- a payload, and reading goes on behind it, if its labels are those that DNS allows.
pub read_name-encode_name :
    (name wire before rest : List ℕ)
    → All IsLabel (split_dots (rstrip_dots name))
    → encode_name name ≡ ok wire
    → read_name (before ++ (wire ++ rest)) (length before)
      ≡ ok (rstrip_dots name, length before + length wire)
unfolding encode_name
read_name-encode_name name wire before rest h encoded =
    let ls = split_dots (rstrip_dots name) in
    let same : wire_of ls ≡ wire = ground (arith, encode_labels-wire_of ls h) in
    read_name-wire_of ls (before ++ (wire ++ rest)) (length before) rest h
      (drop_front before (wire ++ rest) ∙ ap (λ w. w ++ rest) (sym same))
    ∙ ap (λ t. ok (t, length before + length (wire_of ls)))
        (join_dots-split_dots (rstrip_dots name))
    ∙ ap (λ w. ok (rstrip_dots name, length before + length w)) same

-- A pointer is two bytes with their two top bits set, and the rest of them the place it points to.
abbrev pub pointer_to : ℕ → List ℕ
pointer_to target = u16 (0xc000 + target)

pointer_table : checked_bytes (λ n. if ltb n 192 then true else is_pointer n) 256 ≡ true
unfolding checked_bytes is_pointer nat_eq
pointer_table = refl

marked_byte : (n : ℕ) → 192 ≤ n → n < 256 → is_pointer n ≡ true
marked_byte n lo hi =
    let k =
      byte_of_checked (λ n. if ltb n 192 then true else is_pointer n) 256 n hi pointer_table in
    let low : ltb n 192 ≡ false = ground arith in rw low at k

-- A compressed name, a pointer to where the bytes of a name stand, is read as that name, and reading
-- goes on behind the pointer.
pub read_name_of_pointer :
    (ls : List Label) (payload : List ℕ) (offset target : ℕ) (rest behind : List ℕ)
    → All IsLabel ls
    → target < 0x4000
    → drop target payload ≡ wire_of ls ++ rest
    → drop offset payload ≡ pointer_to target ++ behind
    → read_name payload offset ≡ ok (join_dots ls, offset + 2)
unfolding read_name
read_name_of_pointer ls payload offset target rest behind h small there here =
    let high = (0xc000 + target) / 256 % 256 in
    let low = (0xc000 + target) % 256 in
    let (byte, _) = get_elem?-drop payload offset high (low ∷ behind) here in
    let pointer : slice payload offset 2 ≡ high ∷ low ∷ [] =
      ap (take 2) here ∙ take_front (pointer_to target) behind in
    let rounds = 34 * (length payload + 1) in
    let one_more : rounds_for payload ≡ suc rounds = omega arith in
    let aim : (high * 256 + low) % 0x4000 ≡ target = omega arith in
    ap (λ r. read_labels r payload [] 0 offset none) one_more
    ∙ jump_round rounds payload [] 0 offset none (omega arith) high (high * 256 + low) byte
        (marked_byte high (omega arith) (omega arith)) (ap unpack_u16 pointer)
    ∙ ap (λ t. read_labels rounds payload [] 1 t (some (offset + 2))) aim
    ∙ read_labels-wire_of ls rounds payload [] 1 target (some (offset + 2)) rest h there
        (omega arith)
        (omega (
          arith,
          length-wire_of ls,
          ap length there,
          length-append (wire_of ls) rest,
          length-drop target payload,
        ))
