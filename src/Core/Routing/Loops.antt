-- ===== src/Core/Routing/Loops.antt =====
-- What `check_buffers` accepts, and one assignment inside the buffers.
use side_alsa.Base.{
  ℕ, zero, suc, ◌*◌, ◌≤◌, ◌<◌, ◌≡◌, none, some, List, [], ◌∷◌, ok, All, length, get_or, set, arith,
  get_elem?-eq-get_or,
}
use side_alsa.Core.Routing.{CompiledPort, find_out_of_range, check_buffers, update_at}

pub record Accepted (channels : List ℕ) (physical_len pc frames logical_len : ℕ) : Type 0 where
  pub some_channels : 0 < pc
  pub in_range : All (λ c. c < pc) channels
  pub physical_fits : frames * pc ≤ physical_len
  pub logical_fits : frames * length channels ≤ logical_len

find_out_of_range-All :
    (pc : ℕ) (channels : List ℕ) → find_out_of_range pc channels ≡ none → All (λ c. c < pc) channels
unfolding find_out_of_range
find_out_of_range-All pc [] h = tt
find_out_of_range-All pc (c ∷ channels) h = ground (arith, find_out_of_range-All pc channels)

pub check_buffers-Accepted :
    (port : CompiledPort) (physical_len pc frames logical_len : ℕ)
    → check_buffers port physical_len pc frames logical_len ≡ ok tt
    → Accepted port.channels physical_len pc frames logical_len
unfolding check_buffers
check_buffers-Accepted port physical_len pc frames logical_len h =
    ground (arith, find_out_of_range-All pc port.channels)

-- A channel of the list is below the number of channels.
pub channel-lt :
    (pc i : ℕ) (channels : List ℕ)
    → All (λ c. c < pc) channels
    → i < length channels
    → get_or channels i 0 < pc
channel-lt pc i [] v h = elim h [ ]
channel-lt pc zero (c ∷ channels) v h = v.0
channel-lt pc (suc i) (c ∷ channels) v h = channel-lt pc i channels v.1 (omega arith)

module _ {A : Type 0} (d : A) (f : A → A → A) (source : List A) where
  pub update_at-some :
      (from to : ℕ) (target : List A)
      → from < length source
      → to < length target
      → update_at f source from to target
        ≡ some (set target to (f (get_or target to d) (get_or source from d)))
  unfolding update_at
  update_at-some from to target h k =
      ground (arith, get_elem?-eq-get_or source from d h, get_elem?-eq-get_or target to d k)
