-- ===== src/Tests/Facilities.antt =====
-- A payload of social facilities: one that comes three times, once elsewhere, and one far away.
use istanbulmcp.Prelude.{ℕ, ◌≡◌, refl, none, some, [], ◌∷◌}
use istanbulmcp.Prelude.Int.{pos}
use istanbulmcp.Prelude.Bytes.{codes, is_space, same_bytes}
use istanbulmcp.Validation.{number}
use istanbulmcp.Services.{Value, dict, text, amount, no_members, member}
use istanbulmcp.Services.Facilities.{Urls, Payload, Totals, load_snapshot}
use istanbulmcp.Services.Facilities.Laws.{IsAccounted, load_snapshot_accounts}
use istanbulmcp.Tests.Pharmacy.{simple_python}

abbrev urls : Urls
urls = record {
  urljoin = λ base t. t;
  scheme = λ t. [];
  netloc = λ t. [];
  hostname = λ t. none;
  with_https = λ t. t;
  lower = λ t. t;
}

abbrev facility : ℕ → Value
facility lat = dict (
    member "name" (text (codes "N")) (
      member "source_id" (text (codes "7")) (
        member "latitude" (amount (number (pos lat)))
          (member "longitude" (amount (number (pos 29000000000))) no_members))))

abbrev payload : Payload
payload = record {
  rows =
      facility 41000000000
      ∷ facility 41000000000
      ∷ facility 41200000000
      ∷ facility 10000000000
      ∷ [];
  reported_total = some 3;
  received_total = 0;
  skipped_total = 0;
  duplicate_total = 0;
}

abbrev expected : Totals
expected = record {
  reported_total = 3;
  received_total = 4;
  accepted_total = 2;
  skipped_total = 0;
  duplicate_total = 1;
  invalid_total = 1;
  out_of_scope_total = 1;
  identity_conflict_total = 1;
  missing_optional_total = 1;
}

counts : (load_snapshot simple_python urls payload).1 ≡ expected
unfolding load_snapshot is_space same_bytes
counts = refl

load_snapshot_accounts_example :
    IsAccounted simple_python urls payload
      (load_snapshot simple_python urls payload).0
      (load_snapshot simple_python urls payload).1
load_snapshot_accounts_example = load_snapshot_accounts simple_python urls payload
