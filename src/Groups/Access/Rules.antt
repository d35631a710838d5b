-- ===== src/Groups/Access/Rules.antt =====
-- Who may reach what: the access decisions of app/groups.py against a description by membership.
use t_log.Shared.{
  Bool, false, not, ◌&&◌, ◌||◌, Option, List, [], ◌∷◌, String, ◌≡◌, refl, ◌∙◌, ap, default, any,
  keep, any-keep, any-or, ok, ◌>>=◌, arith,
}
use t_log.Shared.Dict.{Dict, get, values}
use t_log.Shared.Sets.{eq_string, member, update, member-update}
use t_log.Shared.Sort.{sorted, text_le, any-sorted}
use t_log.Users.{StoredUser, UsersFile, load_users}
use t_log.Groups.{StoredGroup, Groups, load}
use t_log.Groups.Access.{
  is_admin, stored_admin, belongs, tabs_of, get_allowed_tabs, adoms_of, adoms_for,
  get_allowed_adoms, within, user_can_access_adom,
}

-- A group gives a tab to the user.
abbrev pub gives_tab : String → List String → String → StoredGroup → Bool
gives_tab username ad_groups tab g =
    belongs username ad_groups g && member tab (default g.allowed_tabs [])

-- A group gives an ADOM to the user: it is unrestricted, or lists the ADOM.
abbrev pub gives_adom : String → List String → String → StoredGroup → Bool
gives_adom username ad_groups adom g =
    belongs username ad_groups g
    && (not (default g.adom_restrict false) || member adom (default g.allowed_adoms []))

member-tabs_of :
    (username : String) (ad_groups : List String) (tab : String) (tabs : List String)
    (gs : List StoredGroup)
    → member tab (tabs_of username ad_groups tabs gs)
      ≡ (member tab tabs || any (gives_tab username ad_groups tab) gs)
unfolding tabs_of
member-tabs_of username ad_groups tab tabs [] = ground arith
member-tabs_of username ad_groups tab tabs (g ∷ gs) = ground (
  arith,
  member-tabs_of username ad_groups tab tabs gs,
  member-tabs_of username ad_groups tab (update tabs (default g.allowed_tabs [])) gs,
  member-update tab tabs (default g.allowed_tabs []),
)

member-adoms_of :
    (adom : String) (allowed : List String) (gs : List StoredGroup)
    → member adom (adoms_of allowed gs)
      ≡ (member adom allowed || any (λ g. member adom (default g.allowed_adoms [])) gs)
unfolding adoms_of
member-adoms_of adom allowed [] = ground arith
member-adoms_of adom allowed (g ∷ gs) = ground (
  arith,
  member-adoms_of adom (update allowed (default g.allowed_adoms [])) gs,
  member-update adom allowed (default g.allowed_adoms []),
)

member-sorted : (a : String) (xs : List String) → member a (sorted text_le xs) ≡ member a xs
unfolding member
member-sorted a xs = any-sorted text_le _ xs

abbrev unrestricted : StoredGroup → Bool
unrestricted g = not (default g.adom_restrict false)

within-adoms_for :
    (adom : String) (gs : List StoredGroup)
    → within adom (adoms_for gs)
      ≡ any (λ g. unrestricted g || member adom (default g.allowed_adoms [])) gs
unfolding within adoms_for member
within-adoms_for adom [] = refl
within-adoms_for adom (g ∷ gs) = ground (
  arith,
  any-or unrestricted (λ g. member adom (default g.allowed_adoms [])) gs,
  member-sorted adom (adoms_of [] (g ∷ gs)),
  member-adoms_of adom [] (g ∷ gs),
)

module _ (s : Groups) (f : UsersFile) (username : String) (users : Dict StoredUser)
    (groups : Dict StoredGroup) (stored : load_users f ≡ ok users) (loaded : load s ≡ ok groups)
    (viewer : stored_admin (get username users) ≡ false) where
  -- A user who is no admin may reach a tab exactly when a group that the user belongs to lists it.
  pub member-get_allowed_tabs :
      (ad_groups : List String) (role : Option String) (tab : String)
      → is_admin role ≡ false
      → (get_allowed_tabs s f username ad_groups role >>= λ tabs. ok (member tab tabs))
        ≡ ok (any (gives_tab username ad_groups tab) (values groups))
  unfolding get_allowed_tabs member
  member-get_allowed_tabs ad_groups role tab h =
      rw (h, stored, viewer, loaded)
        (ap ok (member-tabs_of username ad_groups tab [] (values groups)))

  -- A user who is no admin may reach an ADOM exactly when a group that the user belongs to is
  -- unrestricted or lists it.
  pub user_can_access_adom-gives_adom :
      (ad_groups : List String) (adom : String)
      → user_can_access_adom s f username adom ad_groups
        ≡ ok (any (gives_adom username ad_groups adom) (values groups))
  unfolding user_can_access_adom get_allowed_adoms
  user_can_access_adom-gives_adom ad_groups adom =
      rw (stored, viewer, loaded)
        (ap ok (
          within-adoms_for adom (keep (belongs username ad_groups) (values groups))
          ∙ any-keep _ _ (values groups)))
