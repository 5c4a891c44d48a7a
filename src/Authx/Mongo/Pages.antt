-- ===== src/Authx/Mongo/Pages.antt =====
-- What the stores of users and of service accounts in v2/apiserver/internal/authx/mongodb share:
-- one page of documents by identifier, and the error of an insertion.
pub mod Orders
pub mod Reads
pub mod Listing
use brignext.Base.{
  ◌-◌, String, Option, none, some, List, [], ◌∷◌, length, get_elem?, ltb, eqb, ◌==◌, if◌then◌else◌,
}
use brignext.Errors.{Error, Reason, err_conflict, write_exception}
use brignext.Effect.{M, pure, crash, ◌>>=◌}
use brignext.Mongo.{Collection, id_asc}
use brignext.Core.Types.{ListMeta, ListOptions}
use brignext.Authx.Docs.{AccountFilter, no_account_criteria}

-- A duplicate key is one write error, of code 11000.
unfoldable pub create_error : String → String → Reason → Error → Error
create_error type_ id why (write_exception (code ∷ [])) =
    if eqb code 11000 then err_conflict type_ id why else write_exception (code ∷ [])
create_error type_ id why e = e

abbrev pub no_meta : ListMeta
no_meta = record { continue_ = ""; remaining_item_count = 0 }

module _ {W D U : Type 0} (collection : Collection W D AccountFilter U) (id_of : D → String) where
  -- The block on a full page: `last` is the item at `opts.Limit-1`.
  unfoldable pub full_page : AccountFilter → List D → Option D → M W (ListMeta × List D)
  full_page criteria items none = crash
  full_page criteria items (some last) = do
    remaining ← collection.count_documents (record criteria { id_after = some (id_of last) })
    pure (
        if ltb 0 remaining
        then (record { continue_ = id_of last; remaining_item_count = remaining }, items)
        else (no_meta, items))

  unfoldable pub page : ListOptions → M W (ListMeta × List D)
  unfolding full_page
  page opts = do
    let criteria = record no_account_criteria {
      id_after = if opts.continue_ == "" then none else some opts.continue_;
    }
    items ← collection.find criteria (record { sort = id_asc; limit = opts.limit })
    if eqb (length items) opts.limit
        then full_page criteria items
            (if eqb opts.limit 0 then none else get_elem? items (opts.limit - 1))
        else pure (no_meta, items)
