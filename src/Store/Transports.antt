-- ===== src/Store/Transports.antt =====
-- fakeTransportRepo of internal/store/fake.go
use haro.Prelude.{String, none, some, not, if◌then◌else◌, string_eq}
use haro.Prelude.Table
use haro.Store.Types.{Transport, Result, ok, err, not_found, foreign_key_violation}
use haro.Store.State.{FakeStore, default_to}

-- `Put` fills in the caller's struct, which is the result.
unfoldable pub put : FakeStore → Transport → Result Transport × FakeStore
put s t =
    if not (Table.has s.attempts t.attempt_id)
    then (err foreign_key_violation, s)
    else let filled = record t { extra = default_to "{}" t.extra } in
      (ok filled, record s { transports = Table.put s.transports t.attempt_id filled })

unfoldable pub get : FakeStore → String → Result Transport
get s attempt_id = elim (Table.get s.transports attempt_id) [ none ↦ err not_found | some t ↦ ok t ]
