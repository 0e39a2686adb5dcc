-- ===== src/Core/Routing/Table/Ports.antt =====
-- The ports of a compiled table are those of the accepted profile.
use side_alsa.Base.{
  ℕ, ◌<◌, ◌≡◌, ◌≢◌, refl, sym, ap, subst, ap₂, ltb, ◌∙◌, true, some, List, [], ◌∷◌, ◌++◌, map,
  Result, ok, err, and_then-eq-ok, All, Distinct, length, u64_mod, arith, inl, inr, Bool-cases,
}
use side_alsa.Base.Text.{bytes_eq}
use side_alsa.Config.Types.{Text, Profile, PortConfig, ProfileError}
use side_alsa.Config.Profile.{validate}
use side_alsa.Config.Profile.Accepted.{IsProfile, validate-IsProfile}
use side_alsa.Config.Ports.Accepted.{IsPort, all_channels}
use side_alsa.Core.Routing.{CompiledPort}
use side_alsa.Core.Routing.Table.{
  RoutingTable, compile_channels, compile_ports, compile, find_port, from_profile,
}

compile_channels-same : (cs : List ℕ) {out : List ℕ} → compile_channels cs ≡ ok out → out ≡ cs
unfolding compile_channels
compile_channels-same [] h = cc
compile_channels-same (c ∷ cs) {out} h =
    let fits : ltb c u64_mod ≡ true = ground arith in
    let (rest, e, f) = and_then-eq-ok (compile_channels cs) _ (rw fits at h) in
    let g : c ∷ rest ≡ out = cc in sym g ∙ ap (λ r. c ∷ r) (compile_channels-same cs e)

-- A port as it is compiled.
abbrev pub compiled : PortConfig → CompiledPort
compiled port = record { id = port.id; name = port.name; channels = port.channels }

compile_ports-map :
    (ports : List PortConfig) {out : List CompiledPort}
    → compile_ports ports ≡ ok out
    → out ≡ map compiled ports
unfolding compile_ports
compile_ports-map [] h = cc
compile_ports-map (port ∷ ports) {out} h =
    let (channels, e, h1) = and_then-eq-ok (compile_channels port.channels) _ h in
    let (rest, f, h2) = and_then-eq-ok (compile_ports ports) _ h1 in
    let same : channels ≡ port.channels = compile_channels-same port.channels e in
    let tail : rest ≡ map compiled ports = compile_ports-map ports f in
    let all : record { id = port.id; name = port.name; channels = channels } ∷ rest ≡ out = cc in
    sym all ∙ ap₂ (λ c r. record { id = port.id; name = port.name; channels = c } ∷ r) same tail

from_profile-ok :
    (r : Result ProfileError (Unit {0})) {a : Unit {0}} → from_profile r ≡ ok a → r ≡ ok tt
from_profile-ok (ok tt) h = refl
from_profile-ok (err e) h = cc

pub compile-IsProfile :
    (p : Profile) {table : RoutingTable}
    → compile p ≡ ok table
    → IsProfile p
      × (table ≡ record {
        playback = map compiled p.ports.playback;
        capture = map compiled p.ports.capture;
      })
unfolding compile
compile-IsProfile p {table} h =
    let (_, valid, h1) = and_then-eq-ok (from_profile (validate p)) _ h in
    let (playback, e, h2) = and_then-eq-ok (compile_ports p.ports.playback) _ h1 in
    let (capture, f, h3) = and_then-eq-ok (compile_ports p.ports.capture) _ h2 in
    let all : record { playback = playback; capture = capture } ≡ table = cc in
    (
      validate-IsProfile p (from_profile-ok (validate p) valid),
      sym all
          ∙ ap₂ (λ a b. record { playback = a; capture = b }) (compile_ports-map p.ports.playback e)
              (compile_ports-map p.ports.capture f),
    )

Distinct-append_left : {A : Type 0} (xs ys : List A) → Distinct (xs ++ ys) → Distinct xs
Distinct-append_left [] ys d = tt
Distinct-append_left {A = A} (x ∷ xs) ys d = (keep xs d.0, Distinct-append_left xs ys d.1)
  where
    keep : (zs : List A) → All (λ y. y ≢ x) (zs ++ ys) → All (λ y. y ≢ x) zs
    keep [] a = tt
    keep (z ∷ zs) a = (a.0, keep zs a.1)

Distinct-append_right : {A : Type 0} (xs ys : List A) → Distinct (xs ++ ys) → Distinct ys
Distinct-append_right [] ys d = d
Distinct-append_right (x ∷ xs) ys d = Distinct-append_right xs ys d.1

-- A port that a table can hold for a number of channels, under an id.
pub record IsListed (n : ℕ) (id : Text) (port : CompiledPort) : Type 0 where
  pub named : bytes_eq port.id id ≡ true
  pub nonempty : 0 < length port.channels
  pub in_range : All (λ c. c < n) port.channels
  pub distinct : Distinct port.channels

pub find_port-IsListed :
    (n : ℕ) (ports : List PortConfig) (id : Text) {port : CompiledPort}
    → All (IsPort n) ports
    → Distinct (all_channels ports)
    → find_port (map compiled ports) id ≡ some port
    → IsListed n id port
unfolding find_port
find_port-IsListed n [] id a d h = cc
find_port-IsListed n (q ∷ ports) id {port} a d h = elim (Bool-cases (bytes_eq q.id id)) [
  | inl e ↦
      let same : compiled q ≡ port = (let k = rw e at h in cc) in
      subst (IsListed n id) same record {
        named = e;
        nonempty = a.0.nonempty;
        in_range = a.0.in_range;
        distinct = Distinct-append_left q.channels (all_channels ports) d;
      }
  | inr e ↦
      find_port-IsListed n ports id a.1 (Distinct-append_right q.channels (all_channels ports) d)
        (ground arith)
]
