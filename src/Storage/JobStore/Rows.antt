-- ===== src/Storage/JobStore/Rows.antt =====
-- The SQL of job_store.py on the rows of the table `jobs`.
use local_content_processor.Prelude.{
  ℕ, suc, String, Bool, ◌&&◌, ◌||◌, Option, none, some, List, [], ◌∷◌, str_eq, keep, if◌then◌else◌,
}
use Prim.Native.String.{compare}
use text.Mathlib.Text.{is_lt}
use local_content_processor.Core.State.{JobState, state_eq}
use local_content_processor.Storage.World.{JobRecord}

-- `SELECT * … WHERE job_id = ?`, the first row.
unfoldable pub find_row : String → List JobRecord → Option JobRecord
find_row job_id [] = none
find_row job_id (r ∷ rows) = if str_eq r.job_id job_id then some r else find_row job_id rows

-- `UPDATE … WHERE job_id = ?`
unfoldable pub update_row : String → (JobRecord → JobRecord) → List JobRecord → List JobRecord
update_row job_id f [] = []
update_row job_id f (r ∷ rows) =
    (if str_eq r.job_id job_id then f r else r) ∷ update_row job_id f rows

-- `DELETE … WHERE job_id = ?`, and its row count.
unfoldable pub delete_rows : String → List JobRecord → List JobRecord
delete_rows job_id [] = []
delete_rows job_id (r ∷ rows) =
    let rest = delete_rows job_id rows in if str_eq r.job_id job_id then rest else r ∷ rest

unfoldable pub count_rows : String → List JobRecord → ℕ
count_rows job_id [] = 0
count_rows job_id (r ∷ rows) =
    let rest = count_rows job_id rows in if str_eq r.job_id job_id then suc rest else rest

-- `a < b` of two texts, character by character.
abbrev pub str_lt : String → String → Bool
str_lt a b = is_lt (compare a b)

abbrev earlier : JobRecord → JobRecord → Bool
earlier a b = str_lt a.created_at b.created_at

abbrev earlier_or_first : JobRecord → JobRecord → Bool
earlier_or_first a b = earlier a b || (str_eq a.created_at b.created_at && str_lt a.job_id b.job_id)

-- A row goes in front of those that are not less; equal rows keep their order.
pub insert_ordered : (JobRecord → JobRecord → Bool) → JobRecord → List JobRecord → List JobRecord
insert_ordered less r [] = r ∷ []
insert_ordered less r (s ∷ rows) =
    let rest = insert_ordered less r rows in if less s r then s ∷ rest else r ∷ s ∷ rows

pub order_by : (JobRecord → JobRecord → Bool) → List JobRecord → List JobRecord
order_by less [] = []
order_by less (r ∷ rows) = insert_ordered less r (order_by less rows)

-- `SELECT * … WHERE state = ? ORDER BY created_at`
unfoldable pub select_state : JobState → List JobRecord → List JobRecord
unfolding order_by insert_ordered
select_state state rows = order_by earlier (keep (λ r. state_eq r.state state) rows)

-- `SELECT * … ORDER BY created_at, job_id`
unfoldable pub order_by_created : List JobRecord → List JobRecord
unfolding order_by insert_ordered
order_by_created rows = order_by earlier_or_first rows
