-- ===== src/Mysql/Confirmed.antt =====
-- internal/proxy/mysql/session.go: one command's cycle, and what a server's packet says of a commit.
use mathlib.Core.Path.{subst}
use faultline.Common.{
  ℕ, zero, suc, Bool, true, false, Option, none, some, List, [], ◌∷◌, ◌++◌, String, ◌≡◌, refl, ap,
  sym, ◌∙◌, arith, Text, ◌==◌, nat_eq, string_eq, ◌⊎◌, inl, inr, Bool-cases, ◌≢◌, ◌+◌, ◌%◌, length,
}
use faultline.Common.Bytes.{bit}
use faultline.Mysql.Wire.{
  Packet, bad_size, Statement, ordinary, begin, commit, rollback, unsupported, ok_status,
}
use faultline.Mysql.Session.{
  Command, Session, Done, done, stop, Stop, closed, panicked, protocol_error, after, ◌>>=◌, read,
  write_upstream, first_byte, result,
}
use faultline.Mysql.Exchange.{
  announce, applied, decide_commit, acknowledge, confirms, answer_ok, answer, cycle,
}
use faultline.Mysql.Quiet.{
  >>=-Keeps, forward-Keeps, result-Keeps, settle-events, prepare-Keeps, applied-Keeps,
  acknowledge-Keeps,
}

-- A statement is a commit, the transaction is open, and the server's status says that it is over.
pub record Confirms (kind : Statement) (open_still : Bool) (o : Option ℕ) : Type 0 where
  pub commits : kind ≡ commit
  pub was_open : open_still ≡ true
  pub status : ℕ
  pub answered : o ≡ some status
  pub over : bit 0 status ≡ false

-- The events that are recorded behind the first ones: none, or, only if `C` holds, a decision and then the fault
-- or none.
abbrev pub Asks : Type 0 → List String → List String → Type 0
Asks C before behind =
    (behind ≡ before)
    ⊎ (C
        × ((behind ≡ before ++ "decision" ∷ [])
            ⊎ (behind ≡ (before ++ "decision" ∷ []) ++ "fault_applied" ∷ [])))

decide_commit-events :
    (c : Command) (first : Packet) (s : Session)
    → (((decide_commit c >>= λ goes. acknowledge goes first) s).1.events
        ≡ s.events ++ "decision" ∷ [])
      ⊎ (((decide_commit c >>= λ goes. acknowledge goes first) s).1.events
          ≡ (s.events ++ "decision" ∷ []) ++ "fault_applied" ∷ [])
unfolding decide_commit
decide_commit-events c first s = elim (Bool-cases c.decision.selected) [
  | inl chosen ↦ rw chosen (
      inr
        ((>>=-Keeps (applied _) _ (applied-Keeps _) λ goes. acknowledge-Keeps goes first).keeps _))
  | inr passed ↦ rw passed (inl ((acknowledge-Keeps true first).keeps (announce "decision" s)))
]

confirms-Confirms :
    (kind : Statement) (open_still : Bool) (status : ℕ)
    → confirms kind open_still (bit 0 status) ≡ true
    → Confirms kind open_still (some status)
unfolding confirms
confirms-Confirms commit open_still status h = record {
  commits = refl;
  was_open = ground (arith, h);
  status = status;
  answered = refl;
  over = ground (arith, h);
}
confirms-Confirms ordinary open_still status h = absurd (ground (arith, h))
confirms-Confirms begin open_still status h = absurd (ground (arith, h))
confirms-Confirms rollback open_still status h = absurd (ground (arith, h))
confirms-Confirms unsupported open_still status h = absurd (ground (arith, h))

answer_ok-Asks :
    (c : Command) (command : ℕ) (kind : Statement) (first : Packet) (o : Option ℕ) (s : Session)
    → Asks (Confirms kind s.transaction o) s.events (answer_ok c command kind first o s).1.events
unfolding answer_ok
answer_ok-Asks c command kind first none s = inl refl
answer_ok-Asks c command kind first (some status) s = elim (Bool-cases (bit 3 status)) [
  | inl more ↦ rw more (inl refl)
  | inr last ↦ elim (Bool-cases (confirms kind s.transaction (bit 0 status))) [
    | inl confirmed ↦
        rw (last, confirmed)
          (inr
            (confirms-Confirms kind s.transaction status confirmed, decide_commit-events c first _))
    | inr unconfirmed ↦ rw (last, unconfirmed) (inl ((forward-Keeps first).keeps _))
  ]
]

pub Asks-map :
    {C D : Type 0} {before behind : List String}
    → (C → D)
    → Asks C before behind
    → Asks D before behind
Asks-map f (inl none_at_all) = inl none_at_all
Asks-map f (inr (c, events)) = inr (f c, events)

answer-Asks :
    (modern : Bool) (c : Command) (command : ℕ) (kind : Statement) (first : Packet) (b : ℕ)
    (s : Session)
    → Asks
        ((command ≢ 22) × Confirms kind s.transaction (ok_status first.body))
        s.events
        (answer modern c command kind first b s).1.events
unfolding answer
answer-Asks modern c command kind first b s = elim (Bool-cases (b == 255)) [
  | inl failed ↦ rw failed (inl ((forward-Keeps first).keeps _))
  | inr fine ↦ elim (Bool-cases (command == 22)) [
    | inl prepared ↦ rw (fine, prepared) (inl ((prepare-Keeps modern kind first).keeps s))
    | inr asked ↦ elim (Bool-cases (b == 251)) [
      | inl local ↦ rw (fine, asked, local) (inl refl)
      | inr remote ↦ elim (Bool-cases (b == 0)) [
        | inr rows_follow ↦
            rw (fine, asked, remote, rows_follow)
              (inl (settle-events (result modern first s) ∙ (result-Keeps modern first).keeps s))
        | inl accepted ↦
            rw (fine, asked, remote, accepted)
              (Asks-map (λ confirmed. (ground (arith, asked), confirmed))
                (answer_ok-Asks c command kind first (ok_status first.body) s))
      ]
    ]
  ]
]

cases_of : {A : Type 0} (l : List A) → (l ≡ []) ⊎ ((x : A) × (xs : List A) × (l ≡ x ∷ xs))
cases_of [] = inl refl
cases_of (x ∷ xs) = inr (x, xs, refl)

Nat-cases : (n : ℕ) → (n ≡ 0) ⊎ ((k : ℕ) × (n ≡ suc k))
Nat-cases zero = inl refl
Nat-cases (suc k) = inr (k, refl)

-- What `write_upstream` and `read` leave of a session.
write_upstream-cases :
    (p : Packet) (s : Session)
    → ((e : Stop) × (t : Session) × (write_upstream p s ≡ (stop e, t)) × (t.events ≡ s.events))
      ⊎ ((room : ℕ) × (write_upstream p s
            ≡ (done tt, record s { upstream_room = room; to_upstream = s.to_upstream ++ p ∷ [] })))
unfolding write_upstream
write_upstream-cases p s = elim (Bool-cases (bad_size (length p.body))) [
  | inl bad ↦ inl (protocol_error, s, rw bad refl, refl)
  | inr fine ↦ elim (Nat-cases s.upstream_room) [
    | inl full ↦ inl (closed, s, ground (arith, fine, full), refl)
    | inr (room, left) ↦ inr (room, rw (fine, left) refl)
  ]
]

read-cases :
    (s : Session)
    → ((e : Stop) × (t : Session) × (read s ≡ (stop e, t)) × (t.events ≡ s.events))
      ⊎ ((p : Packet) × (rest : List Packet) × (seq : ℕ) × (s.back ≡ p ∷ rest)
          × (read s ≡ (done p, record s { back = rest; seq = seq })))
unfolding read
read-cases s = elim (cases_of s.back) [
  | inl over ↦ inl (closed, s, rw over refl, refl)
  | inr (p, rest, next) ↦ elim (Bool-cases (p.seq == s.seq)) [
    | inl expected ↦ inr (p, rest, (s.seq + 1) % 256, next, rw next (rw expected refl))
    | inr other ↦ inl (protocol_error, record s { back = rest }, rw next (rw other refl), refl)
  ]
]

pub first_byte-cases :
    (p : Packet) (s : Session)
    → (first_byte p s ≡ (stop panicked, s))
      ⊎ ((b : ℕ) × (bs : Text) × (p.body ≡ b ∷ bs) × (first_byte p s ≡ (done b, s)))
first_byte-cases p s = elim (cases_of p.body) [
  | inl nothing ↦ inl (rw nothing refl)
  | inr (b, bs, body) ↦ inr (b, bs, body, rw body refl)
]

-- The server confirms a commit with the first packet that is read of it.
pub record Answered (command : ℕ) (kind : Statement) (s : Session) : Type 0 where
  pub no_prepare : command ≢ 22
  pub first : Packet
  pub rest : List Packet
  pub next : s.back ≡ first ∷ rest
  pub confirms : Confirms kind s.transaction (ok_status first.body)

read_on-Asks :
    (modern : Bool) (c : Command) (command : ℕ) (kind : Statement) (s : Session)
    → Asks
        (Answered command kind s)
        s.events
        ((read >>= λ first. first_byte first >>= λ b. answer modern c command kind first b)
          s).1.events
read_on-Asks modern c command kind s = elim (read-cases s) [
  | inl (e, t, over, same) ↦ rw over (inl same)
  | inr (p, rest, seq, next, taken) ↦
      let t : Session = record s { back = rest; seq = seq } in
      rw taken (elim (first_byte-cases p t) [
        | inl empty ↦ inl (
            ap
              (λ (r : Done ℕ × Session). (after (λ b. answer modern c command kind p b) r).1.events)
              empty)
        | inr (b, bs, body, begins) ↦
            subst
              (λ (r : Done ℕ × Session).
                Asks (Answered command kind s) s.events
                  (after (λ b'. answer modern c command kind p b') r).1.events)
              (sym begins)
              (Asks-map
                (λ (no_prepare, confirmed). record {
                  no_prepare = no_prepare;
                  first = p;
                  rest = rest;
                  next = next;
                  confirms = confirmed;
                })
                (answer-Asks modern c command kind p b t))
      ])
]

pub cycle-Asks :
    (modern : Bool) (c : Command) (command : ℕ) (kind : Statement) (s : Session)
    → Asks (Answered command kind s) s.events (cycle modern c command kind s).1.events
unfolding cycle
cycle-Asks modern c command kind s = elim (write_upstream-cases c.packet s) [
  | inl (e, t, failed, same) ↦ rw failed (inl same)
  | inr (room, sent) ↦ rw sent (elim (Bool-cases (command == 25)) [
    | inl closes ↦ rw closes (inl refl)
    | inr other ↦ rw other (
        Asks-map
          (λ a. record {
            no_prepare = a.no_prepare;
            first = a.first;
            rest = a.rest;
            next = a.next;
            confirms = a.confirms;
          })
          (read_on-Asks modern c command kind (record s {
            upstream_room = room;
            to_upstream = s.to_upstream ++ c.packet ∷ [];
            seq = 1;
          })))
  ])
]
