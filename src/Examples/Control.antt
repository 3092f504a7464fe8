-- ===== src/Examples/Control.antt =====
-- Tests of the upload front end, and its theorems applied at concrete inputs.
use warpline.Base.{
  ℕ, ◌≡◌, refl, ◌↔◌, true, List, [], ◌∷◌, Option, none, some, arith, if◌then◌else◌, pos, Result, ok,
  Bytes, bytes_eq, pair_beq, pair_eq, lookup,
}
use warpline.Base.Text.{codes}
use warpline.Base.Trim.{trim_start, trim_end}
use warpline.Types.Names.{valid_name, is_head, is_tail, is_valid_digest, is_hex}
use warpline.Types.Limits.{Limits}
use warpline.Types.Bearer.{
  is_whitespace, split_whitespace, eq_ignore_ascii_case, token_of, parse_scheme, parse_bearer,
}
use warpline.Registry.Disk.{touch, published}
use warpline.Registry.Pointer.{
  pointer_path, write_pointer, wasm_name, wasm_exists, write_wasm_source, write_untouched,
}
use warpline.Registry.Blobs.{
  cache_file_name, compile, compile_fresh, cached_exists, load_cwasm, persist_cwasm, write_cwasm,
  typecheck_component,
}
use warpline.Runtime.Publish.{
  stage, stage_component, stage_source, persist_or_refresh, refresh_cwasm, activate,
  activate_digest, active,
}
use warpline.Examples.Registry.{acme, hello, digest_a, digest_b, toy, disk, works}
use warpline.Examples.Pg.{tables, keys, plain, at_second, up}
use warpline.Pg.Schema.{Database, committed, refused, commit, tenant_by_id}
use warpline.Pg.Auth.{
  authorized, new_authenticator, select_key, cached_of, outcome_for, authenticate, ask,
}
use warpline.Front.{bearer_from, limits_or_reply, authenticate_request}
use warpline.Control.Token.{accumulate, constant_time_eq, constant_time_eq_iff}
use warpline.Control.Publish.{
  PublishNetwork, at_quota, count_others, publish_statements, select_hash, settle, try_reconcile,
  finish_publish, publish_in_db, publish_pointer,
}
use warpline.Control.Publish.Quota.{functions_of, IsWithin, publish_in_db-IsWithin}
use warpline.Control.Publish.Agree.{active-try_reconcile}
use warpline.Control.Publish.Publishes.{Publishes, publish_in_db-Publishes}
use warpline.Control.Upload.{
  Field, is_wasm_field, read_fields, AppState, World, has_database, upload_wasm, upload_body,
  upload_as, upload,
}
use warpline.Control.Upload.Guarded.{Guards, upload-Guards}
use warpline.Control.Upload.Serves.{Serves, upload-Serves}
use warpline.Control.Admin.{AdminConfigBody, admin_create_tenant}
use warpline.Control.Admin.Guarded.{AdminAnswers, admin_create_tenant-AdminAnswers}

constant_time_eq_iff_example : (constant_time_eq acme hello ≡ true) ↔ (acme ≡ hello)
constant_time_eq_iff_example = constant_time_eq_iff acme hello (omega arith) (omega arith)

one_token : constant_time_eq acme acme ≡ true
unfolding constant_time_eq accumulate
one_token = refl

abbrev net : PublishNetwork
net = record {
  begin = ok tt;
  timeouts = ok tt;
  lock = ok tt;
  select = ok tt;
  count = ok tt;
  upsert = ok tt;
  answer = committed;
}

-- A commit that the client does not hear of, which the server refused.
abbrev cut : PublishNetwork
cut = record net { answer = refused }

-- One function already, with the digest that the disk's pointer has.
abbrev stocked : Database
stocked = record tables { functions = ((codes "id-1", hello), digest_a) ∷ [] }

publish_in_db-IsWithin_example :
    IsWithin 1
      (codes "id-1")
      (publish_in_db net works net works (pos 1) stocked disk acme hello digest_b).0
unfolding functions_of lookup
publish_in_db-IsWithin_example =
    publish_in_db-IsWithin net net works works 1 (codes "id-1") stocked disk acme hello digest_b
      (record { keyed = (refl, tt); few = omega arith })

names_valid : (valid_name acme ≡ true) × (valid_name hello ≡ true)
unfolding valid_name is_head is_tail
names_valid = (refl, refl)

publish_in_db-Publishes_example :
    Publishes net works acme hello digest_b acme hello stocked disk
      (activate works disk acme hello digest_b).0
      (publish_in_db cut works net works (pos 1) stocked disk acme hello digest_b)
publish_in_db-Publishes_example =
    publish_in_db-Publishes net works acme hello digest_b acme hello cut works (pos 1) stocked disk
      names_valid.0 names_valid.1

reconciled : (try_reconcile net works stocked disk acme hello).1 ≡ ok tt
unfolding try_reconcile settle select_hash activate_digest activate write_pointer pointer_path
    wasm_exists wasm_name is_valid_digest is_hex valid_name is_head is_tail lookup commit
reconciled = refl

active-try_reconcile_example :
    active (try_reconcile net works stocked disk acme hello).0 acme hello ≡ (
      if pair_beq (acme, hello) (acme, hello)
      then ok (select_hash stocked acme hello)
      else active disk acme hello)
active-try_reconcile_example =
    active-try_reconcile net works stocked disk acme hello acme hello reconciled names_valid.0
      names_valid.1

-- The toy digest is the same for every token.
abbrev pub keyed_tables : Database
keyed_tables = record tables { api_keys = (digest_a, codes "id-1") ∷ [] }

abbrev server : AppState toy keys
server = record {
  disk = disk;
  tables = keyed_tables;
  auth = some (new_authenticator keys (λ b. digest_a) 0);
  admin_token = none;
  max_functions_per_tenant = pos 100;
}

abbrev world : World toy keys
world = record {
  clock = at_second 10;
  answer = ok (select_key keyed_tables digest_a);
  persist = works;
  source = works;
  net = net;
  pointer = works;
  reconcile_net = net;
  reconcile_pointer = works;
}

abbrev body : List (Result ℕ Field)
body = ok (record { name = some (codes "wasm"); bytes = ok (1 ∷ []) }) ∷ []

abbrev pub header : Option Bytes
header = some (codes "Bearer old")

upload-Guards_example :
    Guards toy keys world server acme hello
      (read_fields none body)
      (authenticate_request keys toy.digest server.auth world.clock world.answer acme header)
      (upload toy keys world server acme hello header body)
upload-Guards_example = upload-Guards toy keys world server acme hello header body

uploaded : (upload toy keys world server acme hello header body).1 ≡ ok digest_a
unfolding upload upload_as upload_body upload_wasm read_fields is_wasm_field authenticate_request
    authenticate ask new_authenticator limits_or_reply outcome_for cached_of select_key tenant_by_id
    bearer_from parse_bearer parse_scheme split_whitespace eq_ignore_ascii_case token_of
    is_whitespace trim_start trim_end valid_name is_head is_tail lookup stage stage_component
    stage_source persist_or_refresh refresh_cwasm compile compile_fresh cached_exists load_cwasm
    persist_cwasm write_cwasm typecheck_component cache_file_name write_wasm_source write_untouched
    wasm_name is_valid_digest is_hex touch publish_pointer publish_in_db publish_statements at_quota
    count_others activate write_pointer pointer_path finish_publish commit published
uploaded = refl

upload-Serves_example :
    (valid_name acme ≡ true)
    × (valid_name hello ≡ true)
    × ((l : Limits) × ((authenticate_request keys toy.digest server.auth world.clock world.answer
            acme header).1
          ≡ ok (authorized l)))
    × Serves toy keys
        (has_database toy keys
          (authenticate_request keys toy.digest server.auth world.clock world.answer acme header).0)
        (upload toy keys world server acme hello header body).0
        acme
        hello
        digest_a
upload-Serves_example = upload-Serves toy keys world server acme hello header body digest_a uploaded

abbrev no_json : Bytes → Option AdminConfigBody
no_json b = none

header_bytes : bearer_from (some (codes "Bearer old")) ≡ some (codes "old")
unfolding bearer_from parse_bearer parse_scheme split_whitespace eq_ignore_ascii_case token_of
    is_whitespace trim_start trim_end
header_bytes = refl

admin_create_tenant-AdminAnswers_example :
    AdminAnswers no_json some plain plain
      (some (codes "old"))
      (bearer_from header)
      true
      []
      up
      (codes "id-2")
      (ok (codes "new"))
      tables
      acme
      (admin_create_tenant no_json some plain plain
        (some (codes "old"))
        true
        up
        (codes "id-2")
        (ok (codes "new"))
        tables
        acme
        header
        [])
unfolding bearer_from parse_bearer parse_scheme split_whitespace eq_ignore_ascii_case token_of
    is_whitespace trim_start trim_end
admin_create_tenant-AdminAnswers_example =
    admin_create_tenant-AdminAnswers no_json some plain plain (some (codes "old")) acme [] header
      true up (codes "id-2") (ok (codes "new")) tables (omega arith) (omega arith)
