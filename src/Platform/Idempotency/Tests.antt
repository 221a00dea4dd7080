-- ===== src/Platform/Idempotency/Tests.antt =====
-- Idempotency records of two racing sessions.
use campus_pilots.Base.{ℕ, true, false, none, some, List, [], ◌∷◌, ◌≡◌, refl, str_eq}
use campus_pilots.Errors.{idempotency_conflict}
use campus_pilots.Exec.{ok, raised}
use campus_pilots.Platform.Idempotency.{
  IdempotencyRecord, Scope, begin, get_by_scope, new_record, close,
}
use campus_pilots.Platform.Idempotency.Laws.{begin_race, answering}

abbrev scope : Scope
scope = record { user_id = 1; endpoint = "POST /posts"; idempotency_key = "key" }

abbrev none_yet : List (IdempotencyRecord ℕ)
none_yet = []

begin_race_example :
    ((begin (answering scope "hash" 3 10 201 7 none (some "7")) scope "hash" 4 12 none_yet).1
      ≡ close 201 7 none (some "7") (new_record scope "hash" 3 10) ∷ none_yet)
    × (str_eq "hash" "hash" ≡ true
        → (begin (answering scope "hash" 3 10 201 7 none (some "7")) scope "hash" 4 12 none_yet).0
          ≡ ok (record {
            record_id = 3;
            replay = some (record {
              response_status = 201;
              response_body = some 7;
              resource_type = none;
              resource_id = some "7";
            });
            pending = false;
          }))
    × (str_eq "hash" "hash" ≡ false
        → (begin (answering scope "hash" 3 10 201 7 none (some "7")) scope "hash" 4 12 none_yet).0
          ≡ raised idempotency_conflict)
unfolding get_by_scope
begin_race_example =
    begin_race scope "hash" 3 10 201 7 none (some "7") "hash" 4 12 none_yet refl refl
