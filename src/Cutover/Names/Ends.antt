-- ===== src/Cutover/Names/Ends.antt =====
-- `_read_name` comes to an end, whatever the bytes.
use cloudfall.Base.{
  ℕ, zero, suc, ◌+◌, ◌-◌, ◌*◌, ◌%◌, ◌≤◌, ◌<◌, Option, none, some, List, [], ◌∷◌, ◌++◌, length, ltb,
  ◌==◌, nat_eq, ◌≡◌, ◌≢◌, refl, inl, inr, Bool-cases, arith,
}
use cloudfall.Base.Bytes.{get_elem?, get_elem?-lt, slice}
use cloudfall.Base.Results.{ok, err, ◌>>=◌}
use cloudfall.Cutover.Names.{
  still_reading, Dns, Label, as_ascii, unpack_u16, is_pointer, end_at, read_labels, rounds_for,
  read_name,
}

-- A call that cannot run out of rounds hands its value to one that does not.
binds_ends :
    {A B : Type 0} (m : Dns A) (f : A → Dns B)
    → m ≢ err still_reading
    → ((a : A) → f a ≢ err still_reading)
    → (m >>= f) ≢ err still_reading
binds_ends (ok a) f n k = k a
binds_ends (err e) f n k = λ q. n cc

unpack_u16_ends : (raw : List ℕ) → unpack_u16 raw ≢ err still_reading
unpack_u16_ends [] q = cc
unpack_u16_ends (a ∷ []) q = cc
unpack_u16_ends (a ∷ b ∷ []) q = cc
unpack_u16_ends (a ∷ b ∷ c ∷ raw) q = cc

as_ascii_ends : (s : List ℕ) → as_ascii s ≢ err still_reading
as_ascii_ends s q = ground arith

jump_spends :
    (left n tail cursor rounds : ℕ)
    → 1 ≤ left
    → left * (n + 1) + tail < suc rounds
    → (left - 1) * (n + 1) + (n - cursor) < rounds
jump_spends zero n tail cursor rounds some_left enough = absurd (omega arith)
jump_spends (suc left) n tail cursor rounds some_left enough = grind arith

-- With `left` jumps still allowed, a round is spent on each byte that is left and, for each jump, on
-- each byte of the payload.
read_labels_ends :
    (rounds left : ℕ) (payload : List ℕ) (labels : List Label) (jumps cursor : ℕ) (end : Option ℕ)
    → jumps + left ≡ 33
    → left * (length payload + 1) + (length payload - cursor) < rounds
    → read_labels rounds payload labels jumps cursor end ≢ err still_reading
unfolding read_labels
read_labels_ends zero left payload labels jumps cursor end j enough = absurd (omega arith)
read_labels_ends (suc rounds) left payload labels jumps cursor end j enough =
    go (get_elem? payload cursor) refl (λ left' labels' jumps' cursor' end'.
      read_labels_ends rounds left' payload labels' jumps' cursor' end')
  where
    Ends : Dns (List ℕ × ℕ) → Type 0
    Ends r = r ≢ err still_reading

    go :
        (o : Option ℕ)
        → get_elem? payload cursor ≡ o
        → ((left' : ℕ) (labels' : List Label) (jumps' cursor' : ℕ) (end' : Option ℕ)
            → jumps' + left' ≡ 33
            → left' * (length payload + 1) + (length payload - cursor') < rounds
            → Ends (read_labels rounds payload labels' jumps' cursor' end'))
        → Ends (read_labels (suc rounds) payload labels jumps cursor end)
    go none e ih = rw (read_labels, e) (λ q. cc)
    go (some n) e ih = elim (Bool-cases (ltb 32 jumps)) [
      | inl over ↦ rw (read_labels, e, over) (λ q. cc)
      | inr within ↦ elim (Bool-cases (is_pointer n)) [
        | inl pointer ↦
            rw (read_labels, e, within, pointer)
              (binds_ends (unpack_u16 (slice payload cursor 2)) _
                (unpack_u16_ends (slice payload cursor 2))
                (λ target.
                  ih (left - 1) labels (jumps + 1) (target % 0x4000) (end_at end (cursor + 2))
                    (ground arith)
                    (jump_spends left (length payload) (length payload - cursor) (target % 0x4000)
                      rounds (ground arith) enough)))
        | inr plain ↦ elim (Bool-cases (n == 0)) [
          | inl closing ↦ rw (read_labels, e, within, plain, closing) (λ q. cc)
          | inr more ↦
              rw (read_labels, e, within, plain, more)
                (binds_ends (as_ascii (slice payload (cursor + 1) n)) _
                  (as_ascii_ends (slice payload (cursor + 1) n))
                  (λ label.
                    ih left (labels ++ (label ∷ [])) jumps (cursor + 1 + n) end j
                      (omega (arith, get_elem?-lt payload cursor n e))))
        ]
      ]
    ]

-- Reading a name ends on every payload, from every offset, also where pointers form a cycle.
pub read_name_ends : (payload : List ℕ) (offset : ℕ) → read_name payload offset ≢ err still_reading
unfolding read_name
read_name_ends payload offset =
    read_labels_ends (rounds_for payload) 33 payload [] 0 offset none (omega arith) (omega arith)
