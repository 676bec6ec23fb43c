-- ===== src/Mysql/Quiet.antt =====
-- internal/proxy/mysql/session.go: the steps that record no event.
use faultline.Common.{
  ℕ, zero, suc, Bool, true, false, Option, none, some, ◌∷◌, ◌≡◌, refl, arith, ◌∙◌, ◌==◌, nat_eq,
  string_eq, inl, inr, Bool-cases, Option-cases, not, ◌&&◌, ◌||◌, length, drop, take,
}
use faultline.Common.Bytes.{bit, from_le_bytes}
use faultline.Mysql.Wire.{Packet, Statement, eof_status}
use faultline.Mysql.Session.{
  Session, Done, done, stop, Step, update, find_statement, is_known, after, ◌>>=◌, ◌>>◌, require,
  read, forward, first_byte, each_definition, definitions_end, definitions, Ending, row_ending,
  rows, columns, result, settle,
}
use faultline.Mysql.Exchange.{applied, acknowledge, prepare}

-- A step that records no event.
pub record Keeps {A : Type 0} (step : Step A) : Type 0 where
  pub keeps : (s : Session) → (step s).1.events ≡ s.events

pub after-events :
    {A B : Type 0} (next : A → Step B) (r : Done A × Session)
    → ((a : A) → Keeps (next a))
    → (after next r).1.events ≡ r.1.events
after-events next (stop e, s) keeps = refl
after-events next (done a, s) keeps = (keeps a).keeps s

pub >>=-Keeps :
    {A B : Type 0} (first : Step A) (next : A → Step B)
    → Keeps first
    → ((a : A) → Keeps (next a))
    → Keeps (first >>= next)
>>=-Keeps first next h k = record { keeps = λ s. after-events next (first s) k ∙ h.keeps s }

pub require-Keeps : (b : Bool) → Keeps (require b)
require-Keeps true = record { keeps = λ s. refl }
require-Keeps false = record { keeps = λ s. refl }

pub read-Keeps : Keeps read
unfolding read
read-Keeps = record { keeps = λ s. ground arith }

pub forward-Keeps : (p : Packet) → Keeps (forward p)
unfolding forward
forward-Keeps p = record { keeps = λ s. ground arith }

pub first_byte-Keeps : (p : Packet) → Keeps (first_byte p)
first_byte-Keeps p = record { keeps = λ s. ground arith }

pub each_definition-Keeps : (n : ℕ) → Keeps (each_definition n)
unfolding each_definition
each_definition-Keeps zero = record { keeps = λ s. refl }
each_definition-Keeps (suc n) = >>=-Keeps read _ read-Keeps λ p.
    >>=-Keeps (first_byte p) _ (first_byte-Keeps p) λ b.
      >>=-Keeps (require _) _ (require-Keeps _)
        λ u. >>=-Keeps (forward p) _ (forward-Keeps p) λ v. each_definition-Keeps n

pub definitions_end-Keeps : Keeps definitions_end
unfolding definitions_end
definitions_end-Keeps =
    >>=-Keeps read _ read-Keeps λ p. >>=-Keeps (require _) _ (require-Keeps _) λ u. forward-Keeps p

pub definitions-Keeps : (modern : Bool) (n : ℕ) → Keeps (definitions modern n)
unfolding definitions
definitions-Keeps modern n = >>=-Keeps (require _) _ (require-Keeps _) λ u.
    >>=-Keeps (each_definition n) _ (each_definition-Keeps n)
      λ v. record { keeps = λ s. ground (arith, definitions_end-Keeps.keeps s) }

pub rows-Keeps : (modern : Bool) (fuel : ℕ) → Keeps (rows modern fuel)
unfolding rows
rows-Keeps modern zero = record { keeps = λ s. refl }
rows-Keeps modern (suc fuel) = >>=-Keeps read _ read-Keeps λ p.
    >>=-Keeps (first_byte p) _ (first_byte-Keeps p) λ b.
      elim (Option-cases (row_ending b p (eof_status p.body modern))) [
        | inl more ↦ rw more (
            >>=-Keeps (forward p) (λ u. rows modern fuel) (forward-Keeps p)
              λ u. rows-Keeps modern fuel)
        | inr (ending, last) ↦ rw last (record { keeps = λ s. refl })
      ]

pub columns-Keeps : (o : Option (ℕ × ℕ)) → Keeps (columns o)
unfolding columns
columns-Keeps none = record { keeps = λ s. refl }
columns-Keeps (some (n, width)) = record { keeps = λ s. ground arith }

pub result-Keeps : (modern : Bool) (first : Packet) → Keeps (result modern first)
unfolding result
result-Keeps modern first = >>=-Keeps (columns _) _ (columns-Keeps _) λ n.
    >>=-Keeps (forward first) _ (forward-Keeps first) λ u.
      >>=-Keeps (definitions modern n) _ (definitions-Keeps modern n)
        λ v. record { keeps = λ s. (rows-Keeps modern _).keeps s }

pub settle-events : (r : Done Ending × Session) → (settle r).1.events ≡ r.1.events
unfolding settle
settle-events (stop e, s) = refl
settle-events (done (status, fine, last), s) = elim (Bool-cases (not fine || not (bit 0 status))) [
  | inl over ↦ rw over ((forward-Keeps last).keeps (record s { transaction = false }))
  | inr still ↦ rw still ((forward-Keeps last).keeps s)
]

pub prepare-Keeps :
    (modern : Bool) (kind : Statement) (first : Packet) → Keeps (prepare modern kind first)
unfolding prepare
prepare-Keeps modern kind first =
    let id = from_le_bytes (take 4 (drop 1 first.body)) in
    let parameters = from_le_bytes (take 2 (drop 7 first.body)) in
    let fields = from_le_bytes (take 2 (drop 5 first.body)) in
    let kept : Session → Session = λ t. record t { statements = (id, kind) ∷ t.statements } in
    let steps : (well known : Bool)
        → Keeps (do
          require well
          require (not known)
          forward first
          definitions modern parameters
          definitions modern fields
          update kept) =
      λ well known. >>=-Keeps (require well) _ (require-Keeps well) λ u.
        >>=-Keeps (require (not known)) _ (require-Keeps (not known)) λ u.
          >>=-Keeps (forward first) _ (forward-Keeps first) λ u.
            >>=-Keeps (definitions modern parameters) _ (definitions-Keeps modern parameters) λ u.
              >>=-Keeps (definitions modern fields) (λ u. update kept)
                (definitions-Keeps modern fields) λ u. record { keeps = λ t. refl } in
    record {
      keeps = λ s.
          after-events _ (first_byte first s) (λ b.
            steps (length first.body == 12 && b == 0) (is_known (find_statement id s.statements)))
          ∙ (first_byte-Keeps first).keeps s;
    }

pub applied-Keeps : (o : Option Bool) → Keeps (applied o)
unfolding applied
applied-Keeps none = record { keeps = λ s. refl }
applied-Keeps (some goes) = record { keeps = λ s. refl }

pub acknowledge-Keeps : (goes : Bool) (first : Packet) → Keeps (acknowledge goes first)
unfolding acknowledge
acknowledge-Keeps true first = forward-Keeps first
acknowledge-Keeps false first = record { keeps = λ s. refl }
