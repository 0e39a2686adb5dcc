-- ===== src/Config/Ports/Accepted.antt =====
-- The ports that `validate_ports` accepts.
use side_alsa.Base.{
  ℕ, ◌<◌, ◌≡◌, ◌≢◌, refl, sym, ap, ◌∙◌, false, List, [], ◌∷◌, ◌++◌, ok, and_then, and_then-eq-ok,
  length, All, Distinct, arith,
}
use side_alsa.Base.Text.{bytes_eq, bytes_eq_refl}
use side_alsa.Protocol.Types.{PortDirection}
use side_alsa.Config.Types.{Text, PortConfig}
use side_alsa.Config.Positions.{contains_text}
use side_alsa.Config.Ports.{
  contains, map_channels, validate_port, validate_ports_from, validate_ports,
}

-- The list that loops leave which put each element in front: `xs` in reverse, then `acc`.
abbrev pub rev_append {ℓ} : {A : Type ℓ} → List A → List A → List A
rev_append [] acc = acc
rev_append (x ∷ xs) acc = rev_append xs (x ∷ acc)

module _ {ℓ} {A : Type ℓ} where
  -- Of a distinct reversed list, what was put in front is distinct and apart from the rest.
  pub Distinct-rev_append :
      (xs acc : List A)
      → Distinct (rev_append xs acc)
      → Distinct xs × Distinct acc × All (λ x. All (λ y. y ≢ x) acc) xs
  Distinct-rev_append [] acc d = (tt, d, tt)
  Distinct-rev_append (x ∷ xs) acc d =
      let (dxs, dacc, apart) = Distinct-rev_append xs (x ∷ acc) d in
      ((heads xs apart, dxs), dacc.1, (dacc.0, tails xs apart))
    where
      heads : (ys : List A) → All (λ y. All (λ z. z ≢ y) (x ∷ acc)) ys → All (λ y. y ≢ x) ys
      heads [] a = tt
      heads (y ∷ ys) a = ((λ e. a.0.0 (sym e)), heads ys a.1)

      tails :
          (ys : List A)
          → All (λ y. All (λ z. z ≢ y) (x ∷ acc)) ys
          → All (λ y. All (λ z. z ≢ y) acc) ys
      tails [] a = tt
      tails (y ∷ ys) a = (a.0.1, tails ys a.1)

  pub rev_append-append :
      (xs ys acc : List A) → rev_append ys (rev_append xs acc) ≡ rev_append (xs ++ ys) acc
  rev_append-append [] ys acc = refl
  rev_append-append (x ∷ xs) ys acc = rev_append-append xs ys (x ∷ acc)

contains-false : (mapped : List ℕ) (c : ℕ) → contains mapped c ≡ false → All (λ y. y ≢ c) mapped
unfolding contains
contains-false [] c h = tt
contains-false (m ∷ mapped) c h = (ground arith, contains-false mapped c (ground arith))

contains_text-false :
    (set : List Text) (t : Text) → contains_text set t ≡ false → All (λ y. y ≢ t) set
unfolding contains_text
contains_text-false [] t h = tt
contains_text-false (s ∷ set) t h = (
  (λ e. ground (arith, bytes_eq_refl t, ap (λ u. bytes_eq u t) e)),
  contains_text-false set t (ground arith),
)

map_channels-ok :
    (direction : PortDirection) (n : ℕ) (id : Text) (mapped cs : List ℕ) {out : List ℕ}
    → map_channels direction n id mapped cs ≡ ok out
    → Distinct mapped
    → (out ≡ rev_append cs mapped) × Distinct out × All (λ c. c < n) cs
unfolding map_channels
map_channels-ok direction n id mapped [] {out} h d =
    let e : mapped ≡ out = cc in (sym e, rw (← e) d, tt)
map_channels-ok direction n id mapped (c ∷ cs) h d =
    let below : c < n = ground arith in
    let fresh : contains mapped c ≡ false = ground arith in
    let (e, d', r) =
      map_channels-ok direction n id (c ∷ mapped) cs (ground arith)
        (contains-false mapped c fresh, d) in
    (e, d', (below, r))

-- A port that can be mapped onto a number of channels.
pub record IsPort (channel_count : ℕ) (port : PortConfig) : Type 0 where
  pub nonempty : 0 < length port.channels
  pub in_range : All (λ c. c < channel_count) port.channels

validate_port-ok :
    (port : PortConfig) (ids : List Text)
    → validate_port port ids ≡ ok tt
    → (contains_text ids port.id ≡ false) × (0 < length port.channels)
unfolding validate_port
validate_port-ok port ids h = ground arith

abbrev pub all_channels : List PortConfig → List ℕ
all_channels [] = []
all_channels (port ∷ ports) = port.channels ++ all_channels ports

abbrev pub all_ids : List PortConfig → List Text
all_ids [] = []
all_ids (port ∷ ports) = port.id ∷ all_ids ports

validate_ports_from-ok :
    (direction : PortDirection) (n : ℕ) (mapped : List ℕ) (ids : List Text)
    (ports : List PortConfig) {mapped' : List ℕ} {ids' : List Text}
    → validate_ports_from direction n mapped ids ports ≡ ok (mapped', ids')
    → Distinct mapped
    → Distinct ids
    → (mapped' ≡ rev_append (all_channels ports) mapped)
      × Distinct mapped'
      × (ids' ≡ rev_append (all_ids ports) ids)
      × Distinct ids'
      × All (IsPort n) ports
unfolding validate_ports_from
validate_ports_from-ok direction n mapped ids [] {mapped'} {ids'} h d di =
    let e : mapped ≡ mapped' = cc in
    let f : ids ≡ ids' = cc in (sym e, rw (← e) d, sym f, rw (← f) di, tt)
validate_ports_from-ok direction n mapped ids (port ∷ ports) {mapped'} {ids'} h d di =
    let (u, h1, h2) =
      and_then-eq-ok (validate_port port ids)
        (λ _.
          and_then (map_channels direction n port.id mapped port.channels)
            λ mapped1. validate_ports_from direction n mapped1 (port.id ∷ ids) ports)
        h in
    let (mapped1, h3, h4) =
      and_then-eq-ok (map_channels direction n port.id mapped port.channels)
        (λ mapped1. validate_ports_from direction n mapped1 (port.id ∷ ids) ports) h2 in
    let (fresh, some_channel) = validate_port-ok port ids h1 in
    let (e1, d1, r1) = map_channels-ok direction n port.id mapped port.channels h3 d in
    let (e2, d2, e3, d3, rest) =
      validate_ports_from-ok direction n mapped1 (port.id ∷ ids) ports h4 d1
        (contains_text-false ids port.id fresh, di) in
    (
      e2
          ∙ ap (rev_append (all_channels ports)) e1
          ∙ rev_append-append port.channels (all_channels ports) mapped,
      d2,
      e3,
      d3,
      (record { nonempty = some_channel; in_range = r1 }, rest),
    )

-- The ports that are accepted map at least one channel each, all in range, no channel of the
-- direction is mapped twice, in one port or in two, and no id is used twice, nor one that was used
-- before.
pub validate_ports_lem :
    (direction : PortDirection) (ports : List PortConfig) (n : ℕ) (ids : List Text)
    {ids' : List Text}
    → Distinct ids
    → validate_ports direction ports n ids ≡ ok ids'
    → All (IsPort n) ports
      × Distinct (all_channels ports)
      × (ids' ≡ rev_append (all_ids ports) ids)
      × Distinct ids'
unfolding validate_ports
validate_ports_lem direction ports n ids {ids'} di h =
    let ((mapped', ids1), h1, h2) =
      and_then-eq-ok (validate_ports_from direction n [] ids ports) (λ sets. ok sets.1) h in
    let same : ids1 ≡ ids' = cc in
    let (e1, d1, e2, d2, ok_ports) = validate_ports_from-ok direction n [] ids ports h1 tt di in
    (
      ok_ports,
      (Distinct-rev_append (all_channels ports) [] (rw (← e1) d1)).0,
      sym same ∙ e2,
      rw (← same) d2,
    )
