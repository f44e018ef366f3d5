-- ===== src/Hub/Jobs/Base.antt =====
-- A transaction takes the database and returns its value with the database that it commits; an
-- exception rolls it back.
use sts2_the_perfect_defect.Prelude.{String, ◌==◌, nat_eq, string_eq, option_eq, if◌then◌else◌}
use sts2_the_perfect_defect.Prelude.Result.{Error, Result, ok, err, boundary, type_error}
use sts2_the_perfect_defect.Prelude.Table.{update}
use sts2_the_perfect_defect.Boundary.Json.{Json, null, obj, end, field, json_eq}
use sts2_the_perfect_defect.Hub.Schema.{status_eq, Job, Db, job_id}

abbrev pub Tx : Type 0 → Type 0
Tx A = Db → Result (A × Db)

abbrev pub hub : String → Error
hub code = boundary "hub" code

-- `UPDATE jobs SET ... WHERE id=?`
abbrev pub set_job : String → (Job → Job) → Db → Db
set_job job f db = record db { jobs = update job_id job f db.jobs }

-- `options.get(name)`
unfoldable pub get : Json → String → Result Json
get (obj end) name = ok null
get (obj (field k v fs)) name = if k == name then ok v else get (obj fs) name
get _ name = err type_error
