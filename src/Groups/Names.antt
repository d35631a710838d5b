-- ===== src/Groups/Names.antt =====
-- The names that `list_groups` shows are the keys of groups.json.
use t_log.Shared.{some, [], ◌∷◌, String, ◌≡◌, refl, ap, map, ok, ◌>>=◌}
use t_log.Shared.Dict.{Dict, get, keys}
use t_log.Groups.{
  StoredGroup, Group, Groups, load, listed, list_groups, group_to_dict, get_group, shown,
}

names-listed : (d : Dict StoredGroup) → map (λ (g : Group). g.name) (listed d) ≡ keys d
unfolding listed keys group_to_dict
names-listed [] = refl
names-listed ((name, g) ∷ d) = ap (λ ks. name ∷ ks) (names-listed d)

pub names-list_groups :
    (s : Groups) (d : Dict StoredGroup)
    → load s ≡ ok d
    → (list_groups s >>= λ listed. ok (map (λ (g : Group). g.name) listed)) ≡ ok (keys d)
unfolding list_groups
names-list_groups s d loaded = rw loaded (ap ok (names-listed d))

-- A stored group reads back in the form of `_group_to_dict`.
pub get_group_of_get :
    (s : Groups) (name : String) (g : StoredGroup) (d : Dict StoredGroup)
    → load s ≡ ok d
    → get name d ≡ some g
    → get_group s name ≡ ok (some (group_to_dict name g))
unfolding get_group shown
get_group_of_get s name g d loaded found = rw (loaded, found) refl
