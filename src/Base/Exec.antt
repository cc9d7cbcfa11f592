-- ===== src/Base/Exec.antt =====
-- Methods that change an object and may raise: what an exception leaves is the state at that point.
use cachy_db.Base.Results.{Result, ok, raise}

abbrev pub Exec : Type 0 → Type 0 → Type 0
Exec S A = S → S × Result A

-- What follows a method: nothing, if it raised.
abbrev pub after : {S A B : Type 0} → S × Result A → (A → Exec S B) → S × Result B
after (s, ok a) f = f a s
after (s, raise e) f = (s, raise e)

-- A `try` with a handler for every exception
abbrev pub catch : {S A B : Type 0} → S × Result A → (A → Exec S B) → Exec S B → S × Result B
catch (s, ok a) f handler = f a s
catch (s, raise e) f handler = handler s

-- A method whose exceptions leave the object as it was.
abbrev pub unchanged : {S A : Type 0} → S → Result (S × A) → S × Result A
unchanged s (ok (s', a)) = (s', ok a)
unchanged s (raise e) = (s, raise e)
