-- ===== src/Pingers/Pointer.antt =====
-- A pointer to an object that the options only hand on, such as a `*net.Dialer`: nil, or the name of
-- the object.
use netping.Common.{ℕ, Option}

abbrev pub Pointer : Type 0
Pointer = Option ℕ
