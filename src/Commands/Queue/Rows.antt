-- ===== src/Commands/Queue/Rows.antt =====
-- Rows by id: ids rise along the table and stay below its counter.
use sonarr.Common.{
  ℕ, suc, ◌≤◌, ◌<◌, ◌==◌, List, [], ◌∷◌, ◌++◌, Option, none, some, ◌≡◌, refl, inl, inr, arith, In,
  if◌then◌else◌,
}
use sonarr.Commands.Command.{Command}
use sonarr.Commands.Queue.{update_row, get_row, sweep_rows, delete_rows}

-- Ids rise from `lo` and stay below `hi`.
abbrev pub Rising : ℕ → ℕ → List Command → Type 0
Rising lo hi [] = lo ≤ hi
Rising lo hi (r ∷ rs) = (lo ≤ r.id) × Rising (suc r.id) hi rs

pub Rising-le : (lo hi : ℕ) (rs : List Command) → Rising lo hi rs → lo ≤ hi
Rising-le lo hi [] h = h
Rising-le lo hi (r ∷ rs) h = omega (arith, Rising-le (suc r.id) hi rs h.1)

pub Rising-mono :
    (lo lo' hi : ℕ) (rs : List Command) → lo ≤ lo' → Rising lo' hi rs → Rising lo hi rs
Rising-mono lo lo' hi [] k h = omega arith
Rising-mono lo lo' hi (r ∷ rs) k h = (omega arith, h.1)

pub Rising-append :
    (lo hi : ℕ) (rs : List Command) (r : Command)
    → Rising lo hi rs
    → r.id ≡ hi
    → Rising lo (suc hi) (rs ++ r ∷ [])
Rising-append lo hi [] r h e = omega arith
Rising-append lo hi (x ∷ rs) r h e = (h.0, Rising-append (suc x.id) hi rs r h.1 e)

-- What keeps the id of every row.
abbrev pub KeepsId : (Command → Command) → Type 0
KeepsId f = (r : Command) → (f r).id ≡ r.id

pub Rising-update_row :
    (lo hi id : ℕ) (f : Command → Command) (rs : List Command)
    → KeepsId f
    → Rising lo hi rs
    → Rising lo hi (update_row id f rs)
unfolding update_row
Rising-update_row lo hi id f [] k h = h
Rising-update_row lo hi id f (r ∷ rs) k h =
    ground (arith, k r, Rising-update_row (suc r.id) hi id f rs k h.1)

pub Rising-sweep_rows :
    (lo hi now : ℕ) (rs : List Command) → Rising lo hi rs → Rising lo hi (sweep_rows now rs).0
unfolding sweep_rows
Rising-sweep_rows lo hi now [] h = h
Rising-sweep_rows lo hi now (r ∷ rs) h = ground (arith, Rising-sweep_rows (suc r.id) hi now rs h.1)

pub Rising-delete_rows :
    (lo hi cutoff : ℕ) (rs : List Command)
    → Rising lo hi rs
    → Rising lo hi (delete_rows cutoff rs).0
unfolding delete_rows
Rising-delete_rows lo hi cutoff [] h = h
Rising-delete_rows lo hi cutoff (r ∷ rs) h = ground (
  arith,
  Rising-delete_rows (suc r.id) hi cutoff rs h.1,
  Rising-mono lo (suc r.id) hi (delete_rows cutoff rs).0,
)

-- A row below or above all ids is not there.
pub get_row_below :
    (lo hi id : ℕ) (rs : List Command) → Rising lo hi rs → id < lo → get_row id rs ≡ none
get_row_below lo hi id [] h k = refl
get_row_below lo hi id (r ∷ rs) h k = ground (arith, get_row_below (suc r.id) hi id rs h.1)

pub get_row_above :
    (lo hi id : ℕ) (rs : List Command) → Rising lo hi rs → hi ≤ id → get_row id rs ≡ none
get_row_above lo hi id [] h k = refl
get_row_above lo hi id (r ∷ rs) h k =
    ground (arith, get_row_above (suc r.id) hi id rs h.1, Rising-le (suc r.id) hi rs h.1)

pub In-le : (lo hi : ℕ) (r : Command) (rs : List Command) → Rising lo hi rs → In r rs → lo ≤ r.id
In-le lo hi r [] h m = absurd m
In-le lo hi r (x ∷ rs) h (inl e) = rw e h.0
In-le lo hi r (x ∷ rs) h (inr m) = omega (arith, In-le (suc x.id) hi r rs h.1 m)

pub In-lt : (lo hi : ℕ) (r : Command) (rs : List Command) → Rising lo hi rs → In r rs → r.id < hi
In-lt lo hi r [] h m = absurd m
In-lt lo hi r (x ∷ rs) h (inl e) = rw e (Rising-le (suc x.id) hi rs h.1)
In-lt lo hi r (x ∷ rs) h (inr m) = In-lt (suc x.id) hi r rs h.1 m

-- A row of the table is found under its id.
pub get_row-In :
    (lo hi : ℕ) (r : Command) (rs : List Command)
    → Rising lo hi rs
    → In r rs
    → get_row r.id rs ≡ some r
get_row-In lo hi r [] h m = absurd m
get_row-In lo hi r (x ∷ rs) h (inl e) = ground arith
get_row-In lo hi r (x ∷ rs) h (inr m) =
    ground (arith, get_row-In (suc x.id) hi r rs h.1 m, In-le (suc x.id) hi r rs h.1 m)

abbrev pub map_some : (Command → Command) → Option Command → Option Command
map_some f none = none
map_some f (some r) = some (f r)

-- An update reaches its row and no other.
pub get_row-update_row :
    (id j : ℕ) (f : Command → Command) (rs : List Command)
    → KeepsId f
    → get_row j (update_row id f rs) ≡ (if j == id then map_some f (get_row j rs) else get_row j rs)
unfolding update_row
get_row-update_row id j f [] k = ground arith
get_row-update_row id j f (r ∷ rs) k = ground (arith, k r, get_row-update_row id j f rs k)
