-- ===== src/Recorder/Drain.antt =====
-- internal/recorder/recorder.go: behind `Close` the writer ends, if it goes on to run.
use faultline.Common.{
  ℕ, ◌+◌, ◌*◌, ◌≤◌, ◌<◌, Bool, true, false, List, [], ◌∷◌, length, ◌≡◌, arith, Bool-cases,
  Option-cases, inl, inr, ◌⊎◌,
}
use faultline.Recorder.State.{Recorder, account, take_event, write}
use faultline.Recorder.Accounting.{in_hand}
use faultline.Recorder.Writer.{queue_cases}

-- The steps that the writer still needs at most.
abbrev pub left : Recorder → ℕ
left r = 2 * length r.queue + in_hand r.sent + 1

abbrev pub drain : List Bool → Recorder → Recorder
drain [] r = r
drain (failed ∷ fs) r = drain fs (write failed r)

write-left :
    (failed : Bool) (r : Recorder)
    → r.closed ≡ true
    → r.finished ≡ false
    → ((write failed r).closed ≡ true)
      × (((write failed r).finished ≡ true) ⊎ (left (write failed r) < left r))
unfolding write take_event account
write-left failed r c f = elim (Option-cases r.sent) [
  | inl s ↦ elim (queue_cases r.queue) [
    | inl q ↦ (ground (arith, c, f, s, q), inl (ground (arith, c, f, s, q)))
    | inr (e, rest, q) ↦ (
      ground (arith, c, f, s, q),
      elim (Bool-cases r.aborted) [
        | inl a ↦ inl (ground (arith, c, f, s, q, a))
        | inr a ↦ inr (ground (arith, c, f, s, q, a))
      ],
    )
  ]
  | inr (e, s) ↦ (ground (arith, c, f, s), inr (ground (arith, c, f, s)))
]

finished-stays : (fs : List Bool) (r : Recorder) → r.finished ≡ true → (drain fs r).finished ≡ true
unfolding write
finished-stays [] r f = f
finished-stays (failed ∷ fs) r f = finished-stays fs (write failed r) (ground (arith, f))

-- A recorder that is closed needs no more than two steps of the writer for each event in the queue, one for the
-- event in its hand, and one: with so many steps, whatever the encoder answers, the writer has returned.
pub drain-finishes :
    (fs : List Bool) (r : Recorder)
    → r.closed ≡ true
    → left r ≤ length fs
    → (drain fs r).finished ≡ true
drain-finishes [] r c h = absurd (omega (arith, h))
drain-finishes (failed ∷ fs) r c h = elim (Bool-cases r.finished) [
  | inl f ↦ finished-stays (failed ∷ fs) r f
  | inr f ↦
      let (closed, next) = write-left failed r c f in
      elim next [
        | inl done ↦ finished-stays fs (write failed r) done
        | inr fewer ↦ drain-finishes fs (write failed r) closed (omega (arith, h, fewer))
      ]
]
