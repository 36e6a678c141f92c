-- ===== src/Controller/Conditions/Notes.antt =====
-- The length of the notes of events.
use coraza_kubernetes_operat.Prelude.{
  leb→le, Bool-cases, ◌≡◌, ◌≤◌, ◌⊎◌, inl, inr, refl, ◌<◌, ◌+◌, ◌∙◌, ap, ◌++◌, length, take, leb,
  arith, length-append, length-take,
}
use coraza_kubernetes_operat.Prelude.Bytes.{Bytes, bytes}
use coraza_kubernetes_operat.Controller.Conditions.{max_event_note_bytes, truncate_event_note}

dotted : Bytes → Bytes
dotted msg = take 1021 msg ++ bytes "..."

length-dotted : (msg : Bytes) → 1021 ≤ length msg → length (dotted msg) ≡ 1024
unfolding dotted
length-dotted msg h =
    length-append (take 1021 msg) (bytes "...") ∙ ap (λ n. n + 3) (length-take 1021 msg h)

-- A note has at most maxEventNoteBytes bytes. It is the message, or, where the message is longer
-- than that, its first 1021 bytes with three dots.
pub truncate_event_note_fits :
    (msg : Bytes)
    → (length (truncate_event_note msg) ≤ max_event_note_bytes)
      × ((truncate_event_note msg ≡ msg)
          ⊎ ((max_event_note_bytes < length msg)
              × (truncate_event_note msg ≡ take 1021 msg ++ bytes "...")))
unfolding truncate_event_note max_event_note_bytes dotted
truncate_event_note_fits msg = elim (Bool-cases (leb (length msg) 1024)) [
  | inl e ↦ rw e (leb→le (length msg) 1024 e, inl refl)
  | inr e ↦
      let long : 1024 < length msg = ground (arith, e) in
      rw e (omega (arith, length-dotted msg (omega (arith, long))), inr (long, refl))
]
