-- ===== src/Install/Inserted.antt =====
-- The edits that insert a text at a line change nothing else.
use peek.Prelude.{◌≡◌, ◌++◌, Option}
use peek.Install.Text.{Text}

-- A text with `new` inserted at one place of `t`, as `whole` says.
pub record IsInserted (t whole s out : Text) : Type 0 where
  pub front : Text
  pub rest : Text
  pub old : s ≡ front ++ (t ++ rest)
  pub now : out ≡ front ++ (whole ++ rest)
