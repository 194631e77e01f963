-- ===== src/Monitor/Table/Row.antt =====
-- A row of `SYSCALL_TABLE`: the number, the name and the count of arguments.
use unikernel_syscall_monito.Base.{ℕ}
use unikernel_syscall_monito.Base.Text.{Text}

pub record Entry : Type 0 where
  pub num : ℕ
  pub name : Text
  pub argc : ℕ
