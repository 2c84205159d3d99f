-- ===== src/Store/Projects.antt =====
-- fakeProjectsRepo of internal/store/fake.go. `now` is the formatted time of the call.
use haro.Prelude.{String, none, some, if◌then◌else◌, string_eq}
use haro.Prelude.Table
use haro.Store.Types.{Project, Result, ok, err, not_found, unique_violation}
use haro.Store.State.{FakeStore}

unfoldable pub create : FakeStore → String → String → String → Result Unit × FakeStore
create s now id root_path = if Table.has s.projects id then (err unique_violation, s) else (
  ok tt,
  record s {
    projects =
        Table.put s.projects id (record { id = id; root_path = root_path; created_at = now });
  },
)

unfoldable pub get : FakeStore → String → Result Project
get s id = elim (Table.get s.projects id) [ none ↦ err not_found | some p ↦ ok p ]
