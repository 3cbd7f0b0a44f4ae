-- ===== src/RsiPolicy/Ids.antt =====
-- The identifiers that `_record_id` makes are valid ones.
use post_training_rsi_pipeli.Prelude.{ℕ, ◌≤◌, String, true, ◌≡◌, refl, arith, length}
use post_training_rsi_pipeli.Platform.{Platform}
use post_training_rsi_pipeli.Platform.Laws.{IsHost}
use post_training_rsi_pipeli.ControlPlane.Text.{codes, is_id, is_id_char}
use post_training_rsi_pipeli.ControlPlane.Text.Laws.{
  IsPart, append-IsPart, digest-IsPart, append-is_id,
}
use post_training_rsi_pipeli.ControlPlane.Enums.ControlState.{ControlState}
use post_training_rsi_pipeli.RsiPolicy.Step.{record_id, phase_of}

pub phase-IsPart : (state : ControlState) → IsPart 22 (phase_of state)
unfolding phase_of is_id_char
phase-IsPart ControlState.boot = record { plain = refl; short = omega arith }
phase-IsPart _ = record { plain = refl; short = omega arith }

infix-IsPart : IsPart 5 "-rsi-"
unfolding is_id_char
infix-IsPart = record { plain = refl; short = omega arith }

dash-IsPart : IsPart 1 "-"
unfolding is_id_char
dash-IsPart = record { plain = refl; short = omega arith }

-- If digests are hexadecimal and decimal texts are digits, `_record_id` gives a valid identifier for
-- every valid prefix of at most 20 characters, every state and every iteration of at most 180 digits.
pub record_id-is_id :
    (P : Platform) (prefix run_id : String) (iteration : ℕ) (state : ControlState)
    (identity : String)
    → IsHost P
    → is_id prefix ≡ true
    → length (codes prefix) ≤ 20
    → length (codes (P.format_int iteration)) ≤ 180
    → is_id (record_id P prefix run_id iteration (phase_of state) identity) ≡ true
unfolding record_id
record_id-is_id P prefix run_id iteration state identity host ok_prefix short digits =
    append-is_id prefix _ ok_prefix
      (append-IsPart infix-IsPart (
        append-IsPart (record { plain = host.decimal iteration; short = digits })
          (append-IsPart dash-IsPart (
            append-IsPart (phase-IsPart state)
              (append-IsPart dash-IsPart (digest-IsPart 16 _ (host.sha256_hex _)))))))
      (omega arith)
