-- ===== src/Reports/Calm.antt =====
-- The calls of the store on books whose driver does not fail: each does its work.
use ccs2_plus.Prelude.{◌≡◌, refl, List, [], ◌∷◌, ◌++◌, not, keep}
use ccs2_plus.Database.{Db, TimeText, is_blank_text, ok}
use ccs2_plus.Reports.{Books, and_then, call, returns}
use ccs2_plus.Reports.Candidates.{query_times, query_sources}

module _ {A : Type 0} where
  -- The same books with a driver that does not fail.
  abbrev pub calm : Books A → Books A
  calm b = record b { conn = record b.conn { faults = [] } }

  -- What the queries find, less the blank texts.
  abbrev pub texts_of : List (Db A → List TimeText) → Db A → List TimeText
  texts_of [] db = []
  texts_of (column ∷ columns) db =
      keep (λ text. not (is_blank_text text)) (column db) ++ texts_of columns db

  pub query_sources-calm :
      (columns : List (Db A → List TimeText)) (b : Books A)
      → query_sources columns (calm b) ≡ (ok (texts_of columns b.conn.committed), calm b)
  unfolding query_sources query_times and_then call returns
  query_sources-calm [] b = refl
  query_sources-calm (column ∷ columns) b = rw (query_sources-calm columns b) refl
