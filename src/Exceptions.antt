-- ===== src/Exceptions.antt =====
-- The exceptions that the classes and the library's `stoi` throw, and what running a method gives.

-- Two are no exceptions of the source: `exit_failure` is a process that ends itself, and
-- `undefined_behaviour` marks a step to which the C++ standard gives no meaning.
pub data Exception : Type 0 where
  multiple_query : Exception
  out_of_queries : Exception
  update_locked : Exception
  multiple_graphs : Exception
  bad_stream : Exception
  invalid_argument : Exception
  out_of_range : Exception
  exit_failure : Exception
  undefined_behaviour : Exception

pub data Result {ℓ} (A : Type ℓ) : Type ℓ where
  ok : A → Result A
  throw : Exception → Result A
