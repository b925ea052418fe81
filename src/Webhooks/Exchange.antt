-- ===== src/Webhooks/Exchange.antt =====
-- What a dispatch adds to the log and what answers it takes: Dispatch of internal/webhooks.
use fleetsweeper.Common.{
  ◌≡◌, refl, ap, sym, ◌∙◌, List, [], ◌∷◌, ◌++◌, Option, none, some, string_eq, All,
}
use fleetsweeper.Webhooks.{Response, Attempt, Dispatcher, next_answer, tail}

abbrev after_answer : Option Response → List Response → List Response
after_answer none rs = rs
after_answer (some r) rs = tail rs

-- The answers left after the attempts, which stand newest first.
abbrev pub answers_left : List Response → List Attempt → List Response
answers_left rs [] = rs
answers_left rs (a ∷ log) = after_answer a.answer (answers_left rs log)

-- Every attempt that was answered got the receivers' next answer.
abbrev pub Answered : List Response → List Attempt → Type 0
Answered rs [] = Unit
Answered rs (a ∷ log) =
    ((r : Response) → a.answer ≡ some r → r ≡ next_answer (answers_left rs log)) × Answered rs log

-- The log and the answers of two states, one after a dispatch's attempts.
pub record Exchange (P : Attempt → Type 0) (d d' : Dispatcher) : Type 0 where
  pub new : List Attempt
  pub log : d'.log ≡ new ++ d.log
  pub answers : d'.responses ≡ answers_left d.responses new
  pub each : All P new
  pub answered : Answered d.responses new

append_assoc : (a b c : List Attempt) → (a ++ b) ++ c ≡ a ++ (b ++ c)
append_assoc [] b c = refl
append_assoc (x ∷ a) b c = ap (λ t. x ∷ t) (append_assoc a b c)

answers_left-append :
    (rs : List Response) (later log : List Attempt)
    → answers_left rs (later ++ log) ≡ answers_left (answers_left rs log) later
answers_left-append rs [] log = refl
answers_left-append rs (a ∷ later) log =
    ap (after_answer a.answer) (answers_left-append rs later log)

All-both :
    (P : Attempt → Type 0) (later log : List Attempt)
    → All P later
    → All P log
    → All P (later ++ log)
All-both P [] log h k = k
All-both P (a ∷ later) log h k = (h.0, All-both P later log h.1 k)

Answered-append :
    (rs : List Response) (later log : List Attempt)
    → Answered (answers_left rs log) later
    → Answered rs log
    → Answered rs (later ++ log)
Answered-append rs [] log h k = k
Answered-append rs (a ∷ later) log h k =
    (rw (answers_left-append rs later log) h.0, Answered-append rs later log h.1 k)

pub Exchange-none : (P : Attempt → Type 0) (d : Dispatcher) → Exchange P d d
Exchange-none P d = record { new = []; log = refl; answers = refl; each = tt; answered = tt }

pub Exchange-then :
    (P : Attempt → Type 0) (d d' e : Dispatcher)
    → Exchange P d d'
    → Exchange P d' e
    → Exchange P d e
Exchange-then P d d' e x y = record {
  new = y.new ++ x.new;
  log = y.log ∙ ap (λ l. y.new ++ l) x.log ∙ sym (append_assoc y.new x.new d.log);
  answers =
      y.answers
      ∙ ap (λ r. answers_left r y.new) x.answers
      ∙ sym (answers_left-append d.responses y.new x.new);
  each = All-both P y.new x.new y.each x.each;
  answered = Answered-append d.responses y.new x.new (rw x.answers at y.answered) x.answered;
}

All-weaken :
    (P Q : Attempt → Type 0)
    → ((a : Attempt) → P a → Q a)
    → (log : List Attempt) → All P log
    → All Q log
All-weaken P Q f [] h = tt
All-weaken P Q f (a ∷ log) h = (f a h.0, All-weaken P Q f log h.1)

pub Exchange-weaken :
    (P Q : Attempt → Type 0) (d d' : Dispatcher)
    → ((a : Attempt) → P a → Q a)
    → Exchange P d d'
    → Exchange Q d d'
Exchange-weaken P Q d d' f x = record {
  new = x.new;
  log = x.log;
  answers = x.answers;
  each = All-weaken P Q f x.new x.each;
  answered = x.answered;
}
