-- ===== src/Cutover/Message/Wire.antt =====
-- What a name server puts on the wire: the format of a response, apart from the code that reads it.
use Prim.Native.Nat.{◌^◌}
use cloudfall.Base.{ℕ, ◌<◌, List, [], ◌∷◌, ◌++◌, length, nat_eq, codes_eq, ◌≡◌, ◌≢◌, refl}
use cloudfall.Base.Bytes.{take, drop, All}
use cloudfall.Cutover.Names.{Label, u16, u32}
use cloudfall.Cutover.Names.Roundtrip.{IsLabel, wire_of}

-- The data of a record: an IPv4 or IPv6 address, a name server, an alias, or another type with its bytes.
pub data Rdata : Type 0 where
  address : ℕ → ℕ → ℕ → ℕ → Rdata
  address6 : List ℕ → Rdata
  name_server : List Label → Rdata
  alias : List Label → Rdata
  untold : ℕ → List ℕ → Rdata

pub record Resource : Type 0 where
  pub owner : List Label
  pub ttl : ℕ
  pub rdata : Rdata

abbrev pub type_of : Rdata → ℕ
type_of (address a b c d) = 1
type_of (address6 raw) = 28
type_of (name_server ls) = 2
type_of (alias ls) = 5
type_of (untold t raw) = t

abbrev pub bytes_of : Rdata → List ℕ
bytes_of (address a b c d) = a ∷ b ∷ c ∷ d ∷ []
bytes_of (address6 raw) = raw
bytes_of (name_server ls) = wire_of ls
bytes_of (alias ls) = wire_of ls
bytes_of (untold t raw) = raw

-- the conditions of the format on the data of a record
abbrev pub IsRdata : Rdata → Type 0
IsRdata (address a b c d) = Unit
IsRdata (address6 raw) = length raw ≡ 16
IsRdata (name_server ls) = All IsLabel ls × (length (wire_of ls) < 65536)
IsRdata (alias ls) = All IsLabel ls × (length (wire_of ls) < 65536)
IsRdata (untold t raw) = (t < 65536) × (length raw < 65536) × (t ≢ 1) × (t ≢ 2) × (t ≢ 5) × (t ≢ 28)

abbrev pub IsResource : Resource → Type 0
IsResource r = All IsLabel r.owner × (r.ttl < 2 ^ 32) × IsRdata r.rdata

unfoldable pub header_of : ℕ → ℕ → ℕ → List ℕ
header_of record_type ttl n = u16 record_type ++ (u16 1 ++ (u32 ttl ++ u16 n))

pub take-header_of :
    (t ttl n : ℕ) (rest : List ℕ) → take 10 (header_of t ttl n ++ rest) ≡ header_of t ttl n
unfolding header_of take
take-header_of t ttl n rest = refl

pub drop-header_of : (t ttl n : ℕ) (rest : List ℕ) → drop 10 (header_of t ttl n ++ rest) ≡ rest
unfolding header_of drop
drop-header_of t ttl n rest = refl

pub length-header_of : (t ttl n : ℕ) → length (header_of t ttl n) ≡ 10
unfolding header_of
length-header_of t ttl n = refl

-- the bytes of a record
unfoldable pub wire_resource : Resource → List ℕ
wire_resource r =
    wire_of r.owner
    ++ (header_of (type_of r.rdata) r.ttl (length (bytes_of r.rdata)) ++ bytes_of r.rdata)

unfoldable pub wire_resources : List Resource → List ℕ
wire_resources [] = []
wire_resources (r ∷ rs) = wire_resource r ++ wire_resources rs

pub record Question : Type 0 where
  pub labels : List Label
  pub record_type : ℕ

unfoldable pub wire_questions : List Question → List ℕ
wire_questions [] = []
wire_questions (q ∷ qs) = wire_of q.labels ++ ((u16 q.record_type ++ u16 1) ++ wire_questions qs)

-- a response with the id and the flags given, and no further sections
unfoldable pub response : ℕ → ℕ → List Question → List Resource → List ℕ
response id flags questions answers =
    (u16 id
      ++ (u16 flags ++ (u16 (length questions) ++ (u16 (length answers) ++ (u16 0 ++ u16 0)))))
    ++ (wire_questions questions ++ wire_resources answers)
