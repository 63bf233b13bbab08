-- ===== src/Audit/Sockets.antt =====
-- The listeners of declared services: `_audit_service_binds` and `_parse_listening_sockets` of audit.py.
-- The digits of a text are those of ASCII.
pub mod Laws
use Prim.Native.Char.{Char, code}
use cloudfall.Base.{
  ℕ, zero, suc, ◌+◌, ◌-◌, ◌*◌, String, Bool, true, false, ◌&&◌, ◌||◌, not, Option, none, some, List,
  [], ◌∷◌, ◌++◌, ◌<>◌, any, select, map, leb, ◌==◌, nat_eq, string_eq, if◌then◌else◌,
}
use cloudfall.Base.Int.{pos}
use cloudfall.Base.Json.{Json, null, bool, int, str, obj, Fields, end, field}
use cloudfall.Base.Results.{ok, ◌>>=◌}
use cloudfall.Base.Text.{print_int}
use cloudfall.Base.Text.Parts.{chars, text, words, splitlines}
use cloudfall.Inventory.{ServiceInventory}
use cloudfall.Audit.Values.{Audits, mapping, string_at, texts}
use cloudfall.Audit.Checks.{AuditCheck, comparison}

abbrev pub Chars : Type 0
Chars = List Char

-- `_SocketListener`
pub record SocketListener : Type 0 where
  pub protocol : String
  pub address : String
  pub port : ℕ

-- `local.rpartition(":")`, where there is a colon: what stands before the last one, and after it
unfoldable pub rpartition : Chars → Option (Chars × Chars)
rpartition [] = none
rpartition (c ∷ s) = elim (rpartition s) [
  | some (before, after) ↦ some (c ∷ before, after)
  | none ↦ if code c == 58 then some ([], s) else none
]

abbrev is_digit : Char → Bool
is_digit c = leb 48 (code c) && leb (code c) 57

unfoldable pub all_digits : Chars → Bool
all_digits [] = true
all_digits (c ∷ s) = is_digit c && all_digits s

-- `text.isdigit()`
abbrev pub isdigit : Chars → Bool
isdigit [] = false
isdigit (c ∷ s) = all_digits (c ∷ s)

-- `int(text)` of digits
unfoldable pub decimal : ℕ → Chars → ℕ
decimal n [] = n
decimal n (c ∷ s) = decimal (n * 10 + (code c - 48)) s

abbrev is_bracket : Char → Bool
is_bracket c = code c == 91 || code c == 93

unfoldable pub strip_front : Chars → Chars
strip_front [] = []
strip_front (c ∷ s) = let rest = strip_front s in if is_bracket c then rest else c ∷ s

abbrev drop_bracket : Char → Chars → Chars
drop_bracket c [] = if is_bracket c then [] else c ∷ []
drop_bracket c (d ∷ s) = c ∷ d ∷ s

unfoldable pub strip_back : Chars → Chars
strip_back [] = []
strip_back (c ∷ s) = drop_bracket c (strip_back s)

-- `text.split("%", maxsplit=1)[0]`
unfoldable pub before_percent : Chars → Chars
before_percent [] = []
before_percent (c ∷ s) = let rest = before_percent s in if code c == 37 then [] else c ∷ rest

-- `address.strip("[]").split("%", maxsplit=1)[0]`
unfoldable pub bare_address : Chars → Chars
unfolding strip_front strip_back before_percent
bare_address address = before_percent (strip_back (strip_front address))

-- the listener that the first and the fifth field of a line tell of
unfoldable pub listener_of : Chars → Chars → Option SocketListener
unfolding rpartition decimal all_digits bare_address
listener_of protocol local = elim (rpartition local) [
  | none ↦ none
  | some (address, raw_port) ↦
      if isdigit raw_port
      then some (record {
        protocol = text protocol;
        address = text (bare_address address);
        port = decimal 0 raw_port;
      })
      else none
]

abbrev pub listener_in : List Chars → Option SocketListener
listener_in (protocol ∷ _ ∷ _ ∷ _ ∷ local ∷ rest) = listener_of protocol local
listener_in _ = none

unfoldable pub listeners_in : List Chars → List SocketListener
unfolding words listener_of
listeners_in [] = []
listeners_in (line ∷ lines) =
    let later = listeners_in lines in
    elim (listener_in (words code line)) [ none ↦ later | some found ↦ found ∷ later ]

unfoldable pub parse_listening_sockets : String → List SocketListener
unfolding splitlines listeners_in
parse_listening_sockets raw = listeners_in (splitlines code (chars raw))

-- `listener.address in _LOOPBACK_ADDRESSES`
abbrev pub is_loopback : SocketListener → Bool
is_loopback listener = listener.address == "127.0.0.1" || listener.address == "::1"

-- a TCP listener on the port
abbrev pub is_on_port : ℕ → SocketListener → Bool
is_on_port port listener = listener.protocol == "tcp" && listener.port == port

abbrev shown_listener : SocketListener → String
shown_listener listener = listener.address <> ":" <> print_int (pos listener.port)

abbrev seen_listeners : List SocketListener → Json
seen_listeners [] = null
seen_listeners (first ∷ rest) =
    obj (field "listeners" (texts (map shown_listener (first ∷ rest))) end)

-- `declared_present and not exposed`
unfoldable pub bind_matches : ServiceInventory → List SocketListener → Bool
bind_matches service listeners =
    let on_port = select (is_on_port service.bind_port) listeners in
    any (λ l. l.address == service.bind_address) on_port
    && not (any (λ l. not (is_loopback l)) on_port)

-- one round of the loop of `_audit_service_binds`
unfoldable pub audit_service_bind : List SocketListener → ServiceInventory → AuditCheck
unfolding comparison bind_matches
audit_service_bind listeners service =
    comparison ("services.bind[" <> service.resource_id <> "]")
      (obj (
        field "protocol" (str "tcp") (
          field "address" (str service.bind_address)
            (field "port" (int (pos service.bind_port)) (field "loopbackOnly" (bool true) end)))))
      (seen_listeners (select (is_on_port service.bind_port) listeners))
      (bind_matches service listeners)

unfoldable pub audit_service_binds : List ServiceInventory → Fields → Audits (List AuditCheck)
unfolding mapping string_at parse_listening_sockets audit_service_bind
audit_service_binds [] spec = ok []
audit_service_binds (first ∷ rest) spec = do
  network ← mapping spec "network"
  raw ← string_at network "listeningSockets"
  ok (map (audit_service_bind (parse_listening_sockets raw)) (first ∷ rest))
