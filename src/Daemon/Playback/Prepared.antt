-- ===== src/Daemon/Playback/Prepared.antt =====
-- What is prepared for a period, and what is heard of it.
use side_alsa.Base.{
  ℕ, ◌+◌, ◌<◌, ◌≡◌, ◌≢◌, ◌⊎◌, inl, inr, refl, Bool, true, false, not, ◌&&◌, ◌||◌, Option, none,
  some, List, ltb, ◌==◌, if◌then◌else◌, arith, Bool-cases, wrapping_sub, subst, sym, ap, ◌∙◌,
}
use side_alsa.Base.Int.{ℤ}
use side_alsa.Client.Region.{
  SharedRegion, client_running, try_consume_playback, establish_activation,
}
use side_alsa.Core.Timeline.Words.{HardwareTimeline}
use side_alsa.Daemon.Session.{SessionState, client_starting, set_hardware_generation}
use side_alsa.Daemon.Playback.{
  forget, SharedPlaybackIdentity, PreparedSharedPlayback, SharedAudioPortBridge, PortState,
  is_last_valid, take_prepared, observe, repeat_last, miss, consume, prepare_playback, is_current,
  commit_prepared, mix, max_repeated_playback_periods, is_consumed, with_region,
}

-- What a preparation leaves, given the count of repeats before it: nothing, the client's period, or
-- the last one again, of which there were fewer than the bound. What is prepared satisfies `Q`.
abbrev pub Leaves : (PreparedSharedPlayback → Type 0) → ℕ → SharedAudioPortBridge → Type 0
Leaves Q repeats b =
    ((b.prepared ≡ none) × (b.repeated_periods ≡ repeats))
    ⊎ ((p : PreparedSharedPlayback) × (b.prepared ≡ some p)
        × Q p
        × (((p.fresh ≡ true) × (b.repeated_periods ≡ repeats))
            ⊎ ((p.fresh ≡ false)
                × (repeats < max_repeated_playback_periods)
                × (b.repeated_periods ≡ repeats + 1))))

module _ (Q : PreparedSharedPlayback → Type 0) where
  -- The same of a state, so that a branch of the code is one of the proof.
  record Prepares (repeats : ℕ) (c : PortState) : Type 0 where
    leaves : Leaves Q repeats c.bridge

  if-Prepares :
      {repeats : ℕ} (b : Bool) (x y : PortState)
      → Prepares repeats x
      → (b ≡ false → Prepares repeats y)
      → Prepares repeats (if b then x else y)
  if-Prepares true x y u v = u
  if-Prepares false x y u v = v refl

  prepares : {repeats : ℕ} (c : PortState) → Leaves Q repeats c.bridge → Prepares repeats c
  prepares c h = record { leaves = h }

  module _ (sequence : ℕ) (identity : SharedPlaybackIdentity)
      (q : (f : Bool) → Q (record { sequence = sequence; identity = identity; fresh = f })) where
    repeat_last-Leaves :
        (b : SharedAudioPortBridge)
        → b.prepared ≡ none
        → Leaves Q b.repeated_periods (repeat_last sequence identity b)
    unfolding repeat_last
    repeat_last-Leaves b h =
        elim (Bool-cases (
          b.repeat_on_underrun
          && is_last_valid b.last_valid_playback identity
          && ltb b.repeated_periods 4)) [
            | inl e ↦ rw e (
                inr (
                  record { sequence = sequence; identity = identity; fresh = false },
                  refl,
                  q false,
                  inr (refl, ground arith, refl),
                ))
            | inr e ↦ elim (Bool-cases (is_last_valid b.last_valid_playback identity)) [
              | inl f ↦ rw (e, f) (inl (h, refl))
              | inr f ↦ rw (e, f) (inl (h, refl))
            ]
          ]

    miss-Leaves :
        (expected now_nanos : ℕ) (c : PortState)
        → c.bridge.prepared ≡ none
        → Leaves Q c.bridge.repeated_periods (miss sequence expected now_nanos identity c).bridge
    unfolding miss
    miss-Leaves expected now_nanos c h =
        elim (Bool-cases (
          not (c.session.armed == identity.session_id)
          && not (c.session.outage == identity.session_id))) [
            | inl e ↦ rw e (inl (h, refl))
            | inr e ↦ rw e (repeat_last-Leaves _ h)
          ]

    consume-Prepares :
        (now_nanos : ℕ) (current : Bool) (c : PortState)
        → c.bridge.prepared ≡ none
        → Prepares c.bridge.repeated_periods (consume sequence now_nanos current identity c)
    unfolding consume
    consume-Prepares now_nanos current c h =
        let expected = wrapping_sub sequence c.bridge.latency_periods in
        let ((outcome, published, scratch), region) =
          try_consume_playback expected c.bridge.scratch c.session.endpoint.region in
        if-Prepares (is_consumed outcome && current) _ _
          (prepares _ (
            inr (
              record { sequence = sequence; identity = identity; fresh = true },
              refl,
              q true,
              inl (refl, refl),
            )))
          (λ e.
            if-Prepares (not (is_consumed outcome) && current) _ _
              (prepares _ (
                miss-Leaves expected now_nanos
                  (record c {
                    session = with_region region c.session;
                    bridge = record c.bridge { scratch = scratch };
                  })
                  h))
              (λ f. prepares _ (inl (h, refl))))

take_prepared-none :
    (p : Option PreparedSharedPlayback) (b : SharedAudioPortBridge)
    → ((take_prepared p b).prepared ≡ none)
      × ((take_prepared p b).repeated_periods ≡ b.repeated_periods)
unfolding take_prepared
take_prepared-none none b = (refl, refl)
take_prepared-none (some p) b = ground arith

observe-same :
    (o : Option ℕ) (generation : ℕ) (b : SharedAudioPortBridge)
    → ((observe o generation b).prepared ≡ b.prepared)
      × ((observe o generation b).repeated_periods ≡ b.repeated_periods)
unfolding observe
observe-same none generation b = (refl, refl)
observe-same (some previous) generation b = ground arith

establish_activation-state :
    (sequence : ℕ) (r : SharedRegion)
    → (establish_activation sequence r).1.header.client_state ≡ r.header.client_state
unfolding establish_activation
establish_activation-state sequence r = ground arith

==→eq : (a b : ℕ) → not (a == b) ≡ false → a ≡ b
==→eq a b h = ground arith

-- Playback for a period and for the session that is active then, whose client runs.
abbrev pub IsPrepared : ℕ → PortState → PreparedSharedPlayback → Type 0
IsPrepared sequence c p =
    (p.sequence ≡ sequence)
    × (c.session.active ≢ 0)
    × (c.session.endpoint.session_id ≡ c.session.active)
    × (c.session.endpoint.region.header.client_state ≡ client_running)
    × (p.identity ≡ record {
      session_id = c.session.active;
      lifecycle_generation = c.session.lifecycle_generation;
      hardware_generation = c.timeline.generation;
    })

pub prepare_playback-Leaves :
    (sequence now_nanos : ℕ) (current : Bool) (c : PortState)
    → Leaves
        (IsPrepared sequence c)
        c.bridge.repeated_periods
        (prepare_playback sequence now_nanos current c).bridge
unfolding prepare_playback
prepare_playback-Leaves sequence now_nanos current c =
    let generation = c.timeline.generation in
    let taken = take_prepared c.bridge.prepared c.bridge in
    let b = observe c.bridge.observed_hardware_generation generation taken in
    let (p1, r1) = take_prepared-none c.bridge.prepared c.bridge in
    let (p2, r2) = observe-same c.bridge.observed_hardware_generation generation taken in
    let cleared : b.prepared ≡ none = p2 ∙ p1 in
    let same : b.repeated_periods ≡ c.bridge.repeated_periods = r2 ∙ r1 in
    let region = set_hardware_generation generation c.session.endpoint.region in
    let region1 : SharedRegion = record region {
      header = record region.header { cycle_sequence = sequence };
    } in
    let s = with_region region1 c.session in
    let (activated, region2) = establish_activation sequence region1 in
    let s' = with_region region2 s in
    let identity : SharedPlaybackIdentity = record {
      session_id = s.active;
      lifecycle_generation = s.lifecycle_generation;
      hardware_generation = generation;
    } in
    let state = region2.header.client_state in
    let nothing : Leaves (IsPrepared sequence c) c.bridge.repeated_periods (forget b) =
      inl (cleared, same) in
    let Q = IsPrepared sequence c in
    (if-Prepares Q (s.active == 0 || not (s.endpoint.session_id == s.active)) _ _
      (prepares Q _ nothing)
      (λ f1. if-Prepares Q activated _ _ (prepares Q _ nothing) (λ f2.
        if-Prepares Q (state == client_starting) _ _ (prepares Q _ nothing) (λ f3.
          if-Prepares Q (not (state == client_running)) _ _ (prepares Q _ nothing) (λ f4.
            let c2 : PortState = record c { session = s'; bridge = b } in
            let runs : c.session.endpoint.region.header.client_state ≡ client_running =
              sym (establish_activation-state sequence region1) ∙ ==→eq state client_running f4 in
            subst (λ n. Prepares Q n (consume sequence now_nanos current identity c2)) same
              (consume-Prepares Q sequence identity
                (λ f. (refl, ground arith, ground arith, runs, refl)) now_nanos current c2
                cleared)))))).leaves

commit_prepared-heard :
    (sequence : ℕ) (physical : List ℤ) (c : PortState) (o : Option PreparedSharedPlayback)
    → c.bridge.prepared ≡ o
    → ((commit_prepared sequence physical c).0 ≡ some physical)
      ⊎ ((p : PreparedSharedPlayback) × (c.bridge.prepared ≡ some p)
          × (is_current sequence p c ≡ true)
          × ((commit_prepared sequence physical c).0 ≡ mix c.bridge physical))
unfolding commit_prepared
commit_prepared-heard sequence physical c none h = rw (h, commit_prepared) (inl refl)
commit_prepared-heard sequence physical c (some p) h = elim (Bool-cases (is_current sequence p c)) [
  | inr e ↦ rw (h, commit_prepared, e) (inl refl)
  | inl e ↦ inr (p, h, e, rw (h, commit_prepared, e) refl)
]

is_current-facts :
    (sequence : ℕ) (p : PreparedSharedPlayback) (c : PortState)
    → is_current sequence p c ≡ true
    → (p.sequence ≡ sequence)
      × (c.session.endpoint.session_id ≡ p.identity.session_id)
      × (c.session.active ≡ p.identity.session_id)
      × (c.session.lifecycle_generation ≡ p.identity.lifecycle_generation)
      × (c.timeline.generation ≡ p.identity.hardware_generation)
      × (c.session.endpoint.region.header.client_state ≡ client_running)
unfolding is_current
is_current-facts sequence p c h = ground arith

-- What one session prepares is never heard in another's place. Between preparation and commit, the
-- session and the timeline may change in any way: either the device's samples stay as they are, or
-- both are for the same period, the session that was active then still is, in the same lifecycle
-- and the same generation of the hardware, its endpoint is the current one, and its client ran at
-- both times.
pub commit_prepared-prepare_playback :
    (sequence commit_sequence now_nanos : ℕ) (current : Bool) (before : PortState)
    (session : SessionState) (timeline : HardwareTimeline) (physical : List ℤ)
    → let b = (prepare_playback sequence now_nanos current before).bridge in
      let after : PortState = record { session = session; bridge = b; timeline = timeline } in
      let heard = (commit_prepared commit_sequence physical after).0 in
      (heard ≡ some physical)
      ⊎ ((heard ≡ mix b physical)
          × (commit_sequence ≡ sequence)
          × (before.session.active ≢ 0)
          × (session.active ≡ before.session.active)
          × (session.endpoint.session_id ≡ before.session.active)
          × (session.lifecycle_generation ≡ before.session.lifecycle_generation)
          × (timeline.generation ≡ before.timeline.generation)
          × (before.session.endpoint.region.header.client_state ≡ client_running)
          × (session.endpoint.region.header.client_state ≡ client_running))
commit_prepared-prepare_playback sequence commit_sequence now_nanos current before session timeline
      physical =
    let b = (prepare_playback sequence now_nanos current before).bridge in
    let after : PortState = record { session = session; bridge = b; timeline = timeline } in
    elim (commit_prepared-heard commit_sequence physical after b.prepared refl) [
      | inl e ↦ inl e
      | inr (p, e, now, heard) ↦ elim (prepare_playback-Leaves sequence now_nanos current before) [
        | inl (none_prepared, r) ↦ cc
        | inr (p', e', (at, act, own, runs, identity), r) ↦
            let same : p' ≡ p = (let k = sym e' ∙ e in cc) in
            let identity' : p.identity ≡ record {
              session_id = before.session.active;
              lifecycle_generation = before.session.lifecycle_generation;
              hardware_generation = before.timeline.generation;
            } =
              ap (λ x. x.identity) (sym same) ∙ identity in
            let at' : p.sequence ≡ sequence = ap (λ x. x.sequence) (sym same) ∙ at in
            let facts = is_current-facts commit_sequence p after now in
            inr (
              heard,
              sym facts.0 ∙ at',
              act,
              facts.2 ∙ ap (λ i. i.session_id) identity',
              facts.1 ∙ ap (λ i. i.session_id) identity',
              facts.3 ∙ ap (λ i. i.lifecycle_generation) identity',
              facts.4 ∙ ap (λ i. i.hardware_generation) identity',
              runs,
              facts.5,
            )
      ]
    ]
