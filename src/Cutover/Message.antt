-- ===== src/Cutover/Message.antt =====
-- DNS responses: `parse_answers` and `_decode_rdata` of cutover.py.
pub mod Wire
pub mod Roundtrip
use Prim.Native.Char.{code}
use cloudfall.Base.{
  ℕ, zero, suc, ◌+◌, ◌*◌, String, Bool, true, false, ◌&&◌, ◌||◌, Option, none, some, List, [], ◌∷◌,
  ◌++◌, length, ltb, map, ◌==◌, nat_eq, codes_eq, if◌then◌else◌,
}
use cloudfall.Base.Bytes.{slice, take}
use cloudfall.Base.Int.{pos}
use cloudfall.Base.Text.{print_int}
use cloudfall.Base.Results.{Result, ok, err, ◌>>=◌}
use cloudfall.Cutover.Names.{
  cutover_dns_invalid, struct_error, Dns, join_dots, unpack_u16, read_name,
}

-- `DnsAnswer`; the name and the value are lists of code points
pub record DnsAnswer : Type 0 where
  pub name : List ℕ
  pub record_type : String
  pub ttl : ℕ
  pub value : List ℕ

abbrev pub codes : String → List ℕ
codes String.[] = []
codes (String.◌∷◌ c s) = code c ∷ codes s

-- `_TYPE_NAMES.get(record_type, str(record_type))`
unfoldable pub type_name : ℕ → String
type_name t =
    if t == 1
    then "A"
    else if t == 2
    then "NS"
    else if t == 5
    then "CNAME"
    else if t == 28
    then "AAAA"
    else print_int (pos t)

-- `".".join(str(byte) for byte in rdata)`
unfoldable pub dotted : List ℕ → List ℕ
dotted rdata = join_dots (map (λ byte. codes (print_int (pos byte))) rdata)

-- what `struct.unpack(">HHIH", raw)` gives: type, TTL and data length
pub record RecordHeader : Type 0 where
  pub record_type : ℕ
  pub ttl : ℕ
  pub data_length : ℕ

abbrev pub unpack_header : List ℕ → Dns RecordHeader
unpack_header (a ∷ b ∷ _ ∷ _ ∷ e ∷ f ∷ g ∷ h ∷ i ∷ j ∷ []) = ok (record {
  record_type = a * 256 + b;
  ttl = e * 16777216 + f * 65536 + g * 256 + h;
  data_length = i * 256 + j;
})
unpack_header _ = err struct_error

-- The number of questions and answers that the first twelve bytes say, as `struct.unpack(">HHHHHH", ...)`
-- gives them.
unfoldable pub unpack_counts : List ℕ → Dns (ℕ × ℕ)
unpack_counts payload = do
  questions ← unpack_u16 (slice payload 4 2)
  answers ← unpack_u16 (slice payload 6 2)
  ok (questions, answers)

-- the loop over the questions
unfoldable pub skip_questions : ℕ → List ℕ → ℕ → Dns ℕ
unfolding read_name
skip_questions zero payload offset = ok offset
skip_questions (suc n) payload offset = do
  (_, end) ← read_name payload offset
  skip_questions n payload (end + 4)

-- `socket.inet_ntop(socket.AF_INET6, rdata)` is a parameter.
module _ (inet_ntop : List ℕ → List ℕ) where
  -- `_decode_rdata`
  unfoldable pub decode_rdata : List ℕ → ℕ → ℕ → List ℕ → Dns (Option (List ℕ))
  unfolding dotted read_name
  decode_rdata payload offset record_type rdata =
      if record_type == 1 && length rdata == 4
      then ok (some (dotted rdata))
      else if record_type == 28 && length rdata == 16
      then ok (some (inet_ntop rdata))
      else if record_type == 2 || record_type == 5
      then (do (name, _) ← read_name payload offset; ok (some name))
      else ok none

  -- the answer of one record, if it is kept, before the later ones
  abbrev pub keep : List ℕ → RecordHeader → Option (List ℕ) → List DnsAnswer → List DnsAnswer
  keep name header none later = later
  keep name header (some value) later =
      record {
        name = name;
        record_type = type_name header.record_type;
        ttl = header.ttl;
        value = value;
      }
      ∷ later

  -- the loop over the answers
  unfoldable pub read_answers : ℕ → List ℕ → ℕ → Dns (List DnsAnswer)
  unfolding read_name decode_rdata
  read_answers zero payload offset = ok []
  read_answers (suc n) payload offset = do
    (name, end) ← read_name payload offset
    header ← unpack_header (slice payload end 10)
    value ←
        decode_rdata payload (end + 10) header.record_type
          (slice payload (end + 10) header.data_length)
    later ← read_answers n payload (end + 10 + header.data_length)
    ok (keep name header value later)

  -- `parse_answers`
  unfoldable pub parse_answers : List ℕ → List ℕ → Dns (List DnsAnswer)
  unfolding unpack_counts skip_questions read_answers
  parse_answers payload expected_id =
      if ltb (length payload) 12
      then err cutover_dns_invalid
      else if take 2 payload == expected_id
      then (do
        (questions, answers) ← unpack_counts payload
        offset ← skip_questions questions payload 12
        read_answers answers payload offset)
      else err cutover_dns_invalid
