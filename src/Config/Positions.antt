-- ===== src/Config/Positions.antt =====
-- `validate_positions` and the limits of `PipeWireConfig`, of crates/sidealsa-config/src/integration.rs.
use side_alsa.Base.{
  ℕ, zero, suc, ◌-◌, ◌^◌, Bool, false, not, ◌&&◌, ◌||◌, none, some, List, [], ◌∷◌, ◌++◌, ok, ltb,
  ◌==◌, length,
}
use side_alsa.Base.Text.{codes, bytes_eq, decimal}
use side_alsa.Config.Types.{
  Text, PortConfig, PipeWireConfig, Check, reject, ◌>>◌, bad_positions, playback_headroom,
  capture_headroom, playback_start_delay,
}

-- `value > i32::MAX as u32`
abbrev above_i32 : ℕ → Bool
above_i32 value = ltb (2 ^ 31 - 1) value

unfoldable pub validate_pipewire : PipeWireConfig → Check
validate_pipewire c =
    reject (above_i32 c.playback_headroom_frames) playback_headroom
    >> reject (above_i32 c.capture_headroom_frames) capture_headroom
    >> reject (above_i32 c.playback_start_delay_frames) playback_start_delay

-- `set.contains(text)`, of a set of strings as the list of what was inserted
unfoldable pub contains_text : List Text → Text → Bool
unfolding bytes_eq
contains_text [] text = false
contains_text (t ∷ set) text = bytes_eq t text || contains_text set text

abbrev pub names : List Text
names =
    codes "MONO"
    ∷ codes "FL"
    ∷ codes "FR"
    ∷ codes "FC"
    ∷ codes "LFE"
    ∷ codes "RL"
    ∷ codes "RR"
    ∷ codes "RC"
    ∷ codes "SL"
    ∷ codes "SR"
    ∷ codes "FLC"
    ∷ codes "FRC"
    ∷ codes "TC"
    ∷ codes "TFL"
    ∷ codes "TFC"
    ∷ codes "TFR"
    ∷ codes "TRL"
    ∷ codes "TRC"
    ∷ codes "TRR"
    ∷ codes "TFLC"
    ∷ codes "TFRC"
    ∷ codes "TSL"
    ∷ codes "TSR"
    ∷ codes "BC"
    ∷ codes "BLC"
    ∷ codes "BRC"
    ∷ []

-- `(0..n).any(|i| p == &format!("AUX{i}"))`, from the end
is_aux : ℕ → Text → Bool
unfolding bytes_eq
is_aux zero p = false
is_aux (suc n) p = bytes_eq p (codes "AUX" ++ decimal n) || is_aux n p

unfoldable pub is_canonical : Text → Bool
unfolding contains_text is_aux
is_canonical p = contains_text names p || is_aux 64 p

-- `positions.iter().any(…)`, with the positions seen so far
unfoldable pub any_bad_position : ℕ → List Text → List Text → Bool
unfolding is_canonical contains_text bytes_eq
any_bad_position count seen [] = false
any_bad_position count seen (p ∷ ps) =
    not (is_canonical p)
    || contains_text seen p
    || (bytes_eq p (codes "MONO") && not (count == 1))
    || any_bad_position count (p ∷ seen) ps

unfoldable pub validate_positions : PortConfig → Check
unfolding any_bad_position
validate_positions port = elim port.positions [
  | none ↦ ok tt
  | some positions ↦
      reject
        (not (length positions == length port.channels)
          || any_bad_position (length positions) [] positions)
        (bad_positions port.id)
]
