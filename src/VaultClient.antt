-- ===== src/VaultClient.antt =====
-- src/vault_client.rs: the walk over Vault's pages and the request timestamps. Vault and the HTTP
-- client are outside: `answer` gives what a signed GET of one page comes back with, and
-- `arrival` the order in which the concurrent requests for some offsets complete.
pub mod Paging
pub mod Timestamps
pub mod Wire
pub mod Decoding
pub mod Query
pub mod Signed
use simply_ip_exporter.Prelude.{
  ℕ, zero, suc, ◌+◌, ◌-◌, ◌*◌, min, Bool, true, false, not, ◌&&◌, ◌||◌, Option, List, [], ◌∷◌, ◌++◌,
  length, leb, ltb, ◌==◌, is_empty, if◌then◌else◌,
}
use simply_ip_exporter.Prelude.Result.{Result, ok, err, ◌>>=◌}
use simply_ip_exporter.Prelude.Text.{Text}

pub record VaultApiRecord : Type 0 where
  pub target_address : Text
  pub last_seen_at : ℕ
  pub is_deleted : Bool

pub record VaultGroup : Type 0 where
  pub id : ℕ
  pub name : Text

-- `status` carries the HTTP code.
pub data VaultError : Type 0 where
  not_configured : VaultError
  request : VaultError
  status : ℕ → VaultError

abbrev pub page_size : ℕ
page_size = 1_000

abbrev pub max_pages : ℕ
max_pages = 1_000

pub record IpRecordsEnvelope : Type 0 where
  pub records : List VaultApiRecord
  pub total_pages : ℕ

pub data IpsResponse : Type 0 where
  envelope : IpRecordsEnvelope → IpsResponse
  legacy : List VaultApiRecord → IpsResponse

-- One `GET /api/ips`: `base` is the groups and the `since` moment, which adds `include_deleted`.
pub record PageRequest : Type 0 where
  pub groups : Text
  pub since : Option ℕ
  pub include_total : Bool
  pub limit : ℕ
  pub offset : ℕ

abbrev pub Vault : Type 0
Vault = PageRequest → Result VaultError IpsResponse

-- `signed_get::<Vec<VaultApiRecord>>`: any other shape of body is a decoding error.
abbrev pub as_records : Result VaultError IpsResponse → Result VaultError (List VaultApiRecord)
as_records (ok (envelope e)) = err request
as_records (ok (legacy records)) = ok records
as_records (err e) = err e

module _ (answer : Vault) (size : ℕ) (groups : Text) (since : Option ℕ) where
  unfoldable pub page_at : ℕ → Result VaultError (List VaultApiRecord)
  page_at offset = as_records (
      answer (record {
        groups = groups;
        since = since;
        include_total = false;
        limit = size;
        offset = offset;
      }))

  -- The pages at the offsets, flattened; the first that fails is the result.
  pub fetch_pages : List ℕ → Result VaultError (List VaultApiRecord)
  fetch_pages [] = ok []
  fetch_pages (offset ∷ offsets) = do
    records ← page_at offset
    rest ← fetch_pages offsets
    ok (records ++ rest)

  -- The offsets of the pages `page`, …, `page + n - 1`.
  pub offsets_from : ℕ → ℕ → List ℕ
  offsets_from zero page = []
  offsets_from (suc n) page = page * size ∷ offsets_from n (page + 1)

  -- The loop, with `max_pages - pages` turns left.
  pub sequential_loop : ℕ → ℕ → List VaultApiRecord → Result VaultError (List VaultApiRecord)
  sequential_loop zero offset all = ok all
  sequential_loop (suc left) offset all = elim (page_at offset) [
    | err e ↦ err e
    | ok page ↦ elim (ltb (length page) size) [
      | true ↦ ok (all ++ page)
      | false ↦ sequential_loop left (offset + size) (all ++ page)
    ]
  ]

  pub fetch_sequentially : List VaultApiRecord → Result VaultError (List VaultApiRecord)
  fetch_sequentially already_fetched =
      let resume_at_second_page = length already_fetched == size in
      if not (is_empty already_fetched) && not resume_at_second_page
      then ok already_fetched
      else if resume_at_second_page
      then sequential_loop (max_pages - 1) size already_fetched
      else sequential_loop max_pages 0 already_fetched

  module _ (arrival : List ℕ → List ℕ) where
    -- The range `1..total_pages`, cut to `max_pages - 1` pages, which come back in the order of
    -- `arrival` (`buffer_unordered`).
    pub fetch_remaining_pages_in_parallel :
        IpRecordsEnvelope → Result VaultError (List VaultApiRecord)
    fetch_remaining_pages_in_parallel e = do
      rest ← fetch_pages (arrival (offsets_from (min (e.total_pages - 1) (max_pages - 1)) 1))
      ok (e.records ++ rest)

    fetch_first : Result VaultError IpsResponse → Result VaultError (List VaultApiRecord)
    fetch_first (ok (envelope e)) = fetch_remaining_pages_in_parallel e
    fetch_first (ok (legacy first_page)) = fetch_sequentially first_page
    fetch_first (err (status code)) =
        if code == 400 then fetch_sequentially [] else err (status code)
    fetch_first (err not_configured) = err not_configured
    fetch_first (err request) = err request

    pub fetch_ips : Result VaultError (List VaultApiRecord)
    unfolding fetch_first
    fetch_ips = fetch_first (
        answer (record {
          groups = groups;
          since = since;
          include_total = true;
          limit = size;
          offset = 0;
        }))

-- The timestamp of a request, from the clock and the last one used (`signed_get`).
pub next_timestamp : ℕ → ℕ → ℕ
next_timestamp now last = if ltb last now || leb 5 (last - now) then now else last + 1
