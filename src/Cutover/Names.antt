-- ===== src/Cutover/Names.antt =====
-- Domain names on the wire: `_encode_query` and `_read_name` of cutover.py. A text is the list of its
-- code points, a byte string the list of its bytes.
pub mod Ends
pub mod Roundtrip
use Prim.Native.Nat.{bit_and}
use cloudfall.Base.{
  ℕ, zero, suc, ◌+◌, ◌*◌, ◌/◌, ◌%◌, ◌<◌, Bool, true, false, Option, none, some, List, [], ◌∷◌, ◌++◌,
  length, leb, ltb, ◌==◌, nat_eq, if◌then◌else◌,
}
use cloudfall.Base.Bytes.{get_elem?, slice, all}
use cloudfall.Base.Results.{Result, ok, err, ◌>>=◌}

-- The exceptions of the DNS client. The last is the model's own, for a loop that has not ended.
pub data DnsError : Type 0 where
  cutover_dns_invalid : DnsError
  cutover_dns_empty : DnsError
  cutover_dns_unreachable : DnsError
  cutover_nameserver_missing : DnsError
  cutover_nameserver_unreachable : DnsError
  cutover_resolver_missing : DnsError
  struct_error : DnsError
  unicode_error : DnsError
  value_error : DnsError
  still_reading : DnsError

abbrev pub Dns : Type 0 → Type 0
Dns = Result DnsError

abbrev pub Label : Type 0
Label = List ℕ

-- `".".join(labels)`
unfoldable pub join_dots : List Label → List ℕ
join_dots [] = []
join_dots (l ∷ []) = l
join_dots (l ∷ m ∷ rest) = l ++ (46 ∷ join_dots (m ∷ rest))

-- puts a code point before the first label
abbrev pub onto_first : ℕ → List Label → List Label
onto_first c [] = (c ∷ []) ∷ []
onto_first c (l ∷ rest) = (c ∷ l) ∷ rest

-- `name.split(".")`
unfoldable pub split_dots : List ℕ → List Label
split_dots [] = [] ∷ []
split_dots (c ∷ s) = let rest = split_dots s in if c == 46 then [] ∷ rest else onto_first c rest

abbrev pub is_nil : List ℕ → Bool
is_nil [] = true
is_nil (c ∷ s) = false

-- `name.rstrip(".")`
unfoldable pub rstrip_dots : List ℕ → List ℕ
rstrip_dots [] = []
rstrip_dots (c ∷ s) =
    let rest = rstrip_dots s in if c == 46 then (if is_nil rest then [] else c ∷ rest) else c ∷ rest

abbrev pub is_ascii : ℕ → Bool
is_ascii c = ltb c 128

-- `label.encode("ascii")` and `raw.decode("ascii")`
abbrev pub as_ascii : List ℕ → Dns (List ℕ)
as_ascii s = if all is_ascii s then ok s else err unicode_error

-- `bytes((len(label),)) + label.encode("ascii")`
unfoldable pub encode_label : Label → Dns (List ℕ)
encode_label label =
    if ltb (length label) 256
    then (do encoded ← as_ascii label; ok (length label ∷ encoded))
    else err value_error

-- the question's name, with its closing zero
unfoldable pub encode_labels : List Label → Dns (List ℕ)
unfolding encode_label
encode_labels [] = ok (0 ∷ [])
encode_labels (label ∷ rest) = do
  front ← encode_label label
  back ← encode_labels rest
  ok (front ++ back)

unfoldable pub encode_name : List ℕ → Dns (List ℕ)
unfolding encode_labels split_dots rstrip_dots
encode_name name = encode_labels (split_dots (rstrip_dots name))

-- `struct.pack(">H", n)` and `struct.pack(">I", n)`
abbrev pub u16 : ℕ → List ℕ
u16 n = (n / 256 % 256) ∷ (n % 256) ∷ []

abbrev pub u32 : ℕ → List ℕ
u32 n = (n / 16777216 % 256) ∷ (n / 65536 % 256) ∷ (n / 256 % 256) ∷ (n % 256) ∷ []

-- `_encode_query`, with the number that `os.urandom` gives
unfoldable pub encode_query : ℕ → List ℕ → ℕ → Dns (List ℕ)
unfolding encode_name
encode_query id name record_type = do
  question ← encode_name name
  ok (
      u16 id
      ++ (u16 0x0100
          ++ (u16 1 ++ (u16 0 ++ (u16 0 ++ (u16 0 ++ (question ++ (u16 record_type ++ u16 1))))))))

-- `struct.unpack(">H", raw)[0]`
abbrev pub unpack_u16 : List ℕ → Dns ℕ
unpack_u16 (a ∷ b ∷ []) = ok (a * 256 + b)
unpack_u16 _ = err struct_error

-- `length & _POINTER_MASK == _POINTER_MASK`
unfoldable pub is_pointer : ℕ → Bool
is_pointer n = bit_and n 0xc0 == 0xc0

-- `end`, once a pointer or the closing zero is met that a jump has not come before
abbrev pub end_at : Option ℕ → ℕ → Option ℕ
end_at none cursor = some cursor
end_at (some end) cursor = some end

abbrev pub end_or : Option ℕ → ℕ → ℕ
end_or none cursor = cursor
end_or (some end) cursor = end

-- The loop of `_read_name`, for so many rounds at most. `end` is there once `jumped` is set.
-- `pointer & ~0xc000` of a 16-bit number is its remainder by 0x4000.
unfoldable pub read_labels : ℕ → List ℕ → List Label → ℕ → ℕ → Option ℕ → Dns (List ℕ × ℕ)
unfolding is_pointer join_dots
read_labels zero payload labels jumps cursor end = err still_reading
read_labels (suc rounds) payload labels jumps cursor end =
    let again = λ (ls : List Label) (j c : ℕ) (e : Option ℕ). read_labels rounds payload ls j c e in
    elim (get_elem? payload cursor) [
      | none ↦ err cutover_dns_invalid
      | some n ↦
          if ltb 32 jumps
          then err cutover_dns_invalid
          else if is_pointer n
          then (do
            pointer ← unpack_u16 (slice payload cursor 2)
            again labels (jumps + 1) (pointer % 0x4000) (end_at end (cursor + 2)))
          else if n == 0
          then ok (join_dots labels, end_or end (cursor + 1))
          else (do
            label ← as_ascii (slice payload (cursor + 1) n)
            again (labels ++ (label ∷ [])) jumps (cursor + 1 + n) end)
    ]

-- the rounds that are always enough for a payload: 34 for each of its bytes, and 34 more
abbrev pub rounds_for : List ℕ → ℕ
rounds_for payload = 34 * (length payload + 1) + 1

-- `_read_name`
unfoldable pub read_name : List ℕ → ℕ → Dns (List ℕ × ℕ)
unfolding read_labels
read_name payload offset = read_labels (rounds_for payload) payload [] 0 offset none
