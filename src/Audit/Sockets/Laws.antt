-- ===== src/Audit/Sockets/Laws.antt =====
-- When a declared service listens where it should, and nowhere else.
use cloudfall.Base.{
  ℕ, Bool, true, false, ◌&&◌, not, List, any, select, ◌==◌, nat_eq, string_eq, ◌≡◌, ◌↔◌, ◌⊎◌, refl,
  ap, inl, inr, Member, arith, Bool-cases,
}
use cloudfall.Base.Json.{null}
use cloudfall.Base.Members.{any_iff, Member-select_iff}
use cloudfall.Inventory.{ServiceInventory}
use cloudfall.Audit.Checks.{compliant}
use cloudfall.Audit.Checks.Laws.{comparison_iff}
use cloudfall.Audit.Sockets.{
  SocketListener, is_loopback, is_on_port, bind_matches, audit_service_bind,
}

module _ {ℓ} {A : Type ℓ} (test chosen : A → Bool) where
  -- an item that one test selects and the other accepts
  abbrev Chosen : List A → Type ℓ
  Chosen items = (a : A) × Member a items × (chosen a ≡ true) × (test a ≡ true)

  selected_item : (items : List A) → any test (select chosen items) ≡ true → Chosen items
  selected_item items h =
      let (a, m, t) = (any_iff test (select chosen items)).0 h in
      let (m', c) = (Member-select_iff chosen a items).0 m in (a, m', c, t)

  some_selected : (items : List A) → Chosen items → any test (select chosen items) ≡ true
  some_selected items (a, m, c, t) =
      (any_iff test (select chosen items)).1 (a, (Member-select_iff chosen a items).1 (m, c), t)

-- An address that only the machine itself can reach.
abbrev pub IsLoopback : SocketListener → Type 0
IsLoopback l = (l.address ≡ "127.0.0.1") ⊎ (l.address ≡ "::1")

abbrev pub IsOnPort : ℕ → SocketListener → Type 0
IsOnPort port l = (l.protocol ≡ "tcp") × (l.port ≡ port)

is_loopback_iff : (l : SocketListener) → (is_loopback l ≡ true) ↔ IsLoopback l
is_loopback_iff l = ground arith

is_on_port_iff : (port : ℕ) (l : SocketListener) → (is_on_port port l ≡ true) ↔ IsOnPort port l
is_on_port_iff port l = ground arith

-- The check of a service passes exactly if one TCP listener on its port has the declared address, and
-- each TCP listener on its port has a loopback address.
pub audit_service_bind_iff :
    (listeners : List SocketListener) (service : ServiceInventory)
    → ((audit_service_bind listeners service).status ≡ compliant) ↔ (
        ((l : SocketListener) × Member l listeners
          × IsOnPort service.bind_port l
          × (l.address ≡ service.bind_address))
        × ((l : SocketListener) → Member l listeners → IsOnPort service.bind_port l → IsLoopback l))
unfolding audit_service_bind bind_matches
audit_service_bind_iff listeners service = (
  λ h.
      let both = (comparison_iff "" null null (bind_matches service listeners)).0 h in
      let (here, apart) = split (any is_declared on_port) (any is_exposed on_port) both in
      let (l, m, c, d) = selected_item is_declared chosen listeners here in
      (
        (l, m, (is_on_port_iff service.bind_port l).0 c, ground (arith, d)),
        λ k m' c'. elim (Bool-cases (is_loopback k)) [
          | inl safe ↦ (is_loopback_iff k).0 safe
          | inr exposed ↦
              let shown =
                some_selected is_exposed chosen listeners
                  (k, m', (is_on_port_iff service.bind_port k).1 c', ap not exposed) in
              cc
        ],
      ),
  λ ((l, m, c, d), only).
      let here : any is_declared on_port ≡ true =
        some_selected is_declared chosen listeners
          (l, m, (is_on_port_iff service.bind_port l).1 c, ground (arith, d)) in
      let apart : any is_exposed on_port ≡ false = none_exposed (any is_exposed on_port) (λ shown.
        let (k, m', c', e) = selected_item is_exposed chosen listeners shown in
        let safe = (is_loopback_iff k).1 (only k m' ((is_on_port_iff service.bind_port k).0 c')) in
        ground arith) in
      (comparison_iff "" null null (bind_matches service listeners)).1
        (rw (bind_matches, here, apart)),
)
  where
    chosen : SocketListener → Bool
    chosen = is_on_port service.bind_port

    on_port : List SocketListener
    on_port = select chosen listeners

    is_declared : SocketListener → Bool
    is_declared l = l.address == service.bind_address

    is_exposed : SocketListener → Bool
    is_exposed l = not (is_loopback l)

    split : (a b : Bool) → (a && not b) ≡ true → (a ≡ true) × (b ≡ false)
    split a b h = ground arith

    none_exposed : (b : Bool) → (b ≡ true → ⊥) → b ≡ false
    none_exposed true h = absurd (h refl)
    none_exposed false h = refl
