-- ===== src/Agents/Wording/Fits.antt =====
-- internal/agents/specialists.go: summarise against the bound that internal/domain/incident/event.go
-- puts on a message.
use Prim.Native.Char.{len_utf8}
use Prim.Native.String.len.{cons as len-cons}
use text.Mathlib.TextPositions.{len-append}
use aegisops_ai.Base.{
  ℕ, zero, suc, ◌-◌, ◌≤◌, ◌≡◌, refl, ◌∙◌, Bool, true, false, leb, Bool-cases, inl, inr, ◌⊎◌, String,
  byte_len, arith, leb→le,
}
use aegisops_ai.Shared.{
  Uid, Time, is_zero_id, is_zero_time, new_validator, check, max_len, not_zero_id, validator_err,
  Err,
}
use aegisops_ai.Domain.Timeline.{
  EventType, ActorType, TimelineEvent, event_validate, event_type_valid, actor_type_valid,
  max_event_message_len, new_event,
}
use aegisops_ai.Agents.Wording.{cut, broken_bytes, summarise, trim_space}

byte_len-broken_bytes : (n : ℕ) → byte_len (broken_bytes n) ≡ n
unfolding broken_bytes
byte_len-broken_bytes zero = refl
byte_len-broken_bytes (suc n) =
    omega (arith, len-append "?" (broken_bytes n), byte_len-broken_bytes n)

byte_len-cut : (n : ℕ) (s : String) → n ≤ byte_len s → byte_len (cut n s) ≡ n
unfolding cut
byte_len-cut n String.[] h = ground arith
byte_len-cut n (String.◌∷◌ c s) h = elim (Bool-cases (leb (len_utf8 c) n)) [
  | inl whole ↦
      rw (whole, cut)
        (len-cons c (cut (n - len_utf8 c) s)
          ∙ omega
              (arith, leb→le (len_utf8 c) n whole, len-cons c s, byte_len-cut (n - len_utf8 c) s))
  | inr split ↦ rw (split, cut) (byte_len-broken_bytes n)
]

-- The text fits the bound exactly when it did before it was summarised.
byte_len-summarise :
    (s : String)
    → leb (byte_len (summarise s)) max_event_message_len
      ≡ leb (byte_len (trim_space s)) max_event_message_len
unfolding summarise
byte_len-summarise s = elim (Bool-cases (leb (byte_len (trim_space s)) max_event_message_len)) [
  | inl fits ↦ rw (fits, summarise) fits
  | inr long ↦
      rw (long, summarise)
        (ground
          (arith, len-append (cut 1999 (trim_space s)) "…", byte_len-cut 1999 (trim_space s), long))
]

unfoldable pub is_built : TimelineEvent ⊎ Err → Bool
is_built (inl e) = true
is_built (inr e) = false

-- A summary becomes an entry of the timeline exactly when it has at most 2000 bytes without the
-- space around it: one that had to be cut is refused.
pub summarise_fits :
    (id : Uid) (now : Time) (incident : Uid) (typ : EventType) (actor : ActorType) (s : String)
    → is_zero_id id ≡ false
    → is_zero_id incident ≡ false
    → event_type_valid typ ≡ true
    → actor_type_valid actor ≡ true
    → is_zero_time now ≡ false
    → is_built (new_event id now incident typ actor (summarise s))
      ≡ leb (byte_len (trim_space s)) max_event_message_len
unfolding new_event event_validate is_built check max_len not_zero_id validator_err new_validator
summarise_fits id now incident typ actor s id_set incident_set typ_known actor_known time_set =
    elim (Bool-cases (leb (byte_len (trim_space s)) max_event_message_len)) [
      | inl fits ↦ rw fits (
          rw
            (
              id_set,
              incident_set,
              typ_known,
              actor_known,
              time_set,
              byte_len-summarise s ∙ fits,
              new_event,
              event_validate,
            )
            refl)
      | inr long ↦ rw long (
          rw
            (
              id_set,
              incident_set,
              typ_known,
              actor_known,
              time_set,
              byte_len-summarise s ∙ long,
              new_event,
              event_validate,
            )
            refl)
    ]
