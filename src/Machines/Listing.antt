-- ===== src/Machines/Listing.antt =====
-- Which machines backend/src/machines/machines.service.ts lists, and with which level.
use open_bastion.Base.{
  Bool, List, Memᴰ, Option, String, [], any, any-mem, ap, arith, false, map, mem_of_any, refl, some,
  subst, sym, true, ◌++◌, ◌-◌, ◌=s=◌, ◌||◌, ◌↔◌, ◌∙◌, ◌∷◌, ◌≡◌, ◌≤◌,
}
use open_bastion.Database.{Database}
use open_bastion.Schema.{User, Permission, Machine, AccessLevel, operator, owner, Role}
use open_bastion.Rbac.{Store, rank}
use open_bastion.Rbac.Spec.{IsHeld, Covers}
use open_bastion.Machines.{
  Shown, at_level, level_rank, level_label, is_mine, best_of, groups_of, permissions_of,
  group_permissions_of, best_level, is_listed, find_all_accessible,
}
use open_bastion.Machines.Visibility.{
  le-best_of, best_of-reached, IsHeld-is_mine, is_mine-IsHeld, row-le-best_level, best_level-row,
  rank-level_rank,
}

any-append {ℓ} :
    {A : Type ℓ} (p : A → Bool) (xs ys : List A) → any p (xs ++ ys) ≡ (any p xs || any p ys)
any-append p [] ys = refl
any-append p (x ∷ xs) ys = ground (arith, any-append p xs ys)

one-le-level_rank : (l : AccessLevel) → 1 ≤ level_rank l
one-le-level_rank operator = omega arith
one-le-level_rank owner = omega arith

any_mine-best_of :
    (user : String) (groups : List String) (rows : List (String × Permission))
    → (any (λ row. is_mine user groups row.1) rows ≡ true) ↔ (1 ≤ best_of user groups rows)
any_mine-best_of user groups rows = (
  (λ h.
      let (row, m, mine) = mem_of_any (λ row. is_mine user groups row.1) rows h in
      omega (arith, le-best_of user groups rows row.0 row.1 m mine, one-le-level_rank row.1.level)),
  (λ h.
      let (k, p, m, mine, le) = best_of-reached user groups rows 0 h in
      any-mem (λ row. is_mine user groups row.1) (k, p) rows m mine),
)

mem_of_map {ℓ κ} :
    {A : Type ℓ} {B : Type κ} (f : A → B) (y : B) (xs : List A)
    → Memᴰ y (map f xs)
    → (x : A) × Memᴰ x xs × (f x ≡ y)
mem_of_map f y [] m = elim m [ ]
mem_of_map f y (x ∷ xs) (Memᴰ.head e) = (x, Memᴰ.head refl, sym e)
mem_of_map f y (x ∷ xs) (Memᴰ.tail m) = let (z, n, e) = mem_of_map f y xs m in (z, Memᴰ.tail n, e)

level_label-level_rank : (l : AccessLevel) → level_label (level_rank l) ≡ some (at_level l)
unfolding level_label
level_label-level_rank operator = refl
level_label-level_rank owner = refl

module _ (db : Database) where
  is_listed-best_level :
      (user id : String) (machine : Machine) (s : Store db)
      → (is_listed db user id machine s ≡ true) ↔ (1 ≤ best_level db user id machine s)
  unfolding is_listed best_level
  is_listed-best_level user id machine s =
      let split =
        any-append (λ row. is_mine user (groups_of db user s) row.1) (permissions_of db id s)
          (group_permissions_of db machine s) in
      let own = any_mine-best_of user (groups_of db user s) (permissions_of db id s) in
      let shared =
        any_mine-best_of user (groups_of db user s) (group_permissions_of db machine s) in
      ground (arith, split, own, shared)

  -- A permission of the user's, or of a group of theirs, on the machine or its group.
  pub record IsTheirs (user : String) (u : User) (id : String) (machine : Machine) (s : Store db)
      (p : Permission) : Type 0 where
    pub row : String
    pub listed : db.find row s.permissions ≡ some p
    pub held : IsHeld user u p
    pub covers : Covers id machine.machine_group_id p

  -- What is said of an entry of the list.
  abbrev pub IsShown : String → User → Store db → String × Machine × Option Shown → Type 0
  IsShown user u s t =
      (db.find t.0 s.machines ≡ some t.1)
      × ((p : Permission) × IsTheirs user u t.0 t.1 s p
          × (t.2 ≡ some (at_level p.level))
          × ((q : Permission) → IsTheirs user u t.0 t.1 s q → rank q.level ≤ rank p.level))

  -- A level that is the best of all is that of some row, and no row has a higher one.
  best_level-IsTheirs :
      (user id : String) (u : User) (machine : Machine) (s : Store db)
      → db.find user s.users ≡ some u
      → any (λ k. k =s= "") u.groups ≡ false
      → 1 ≤ best_level db user id machine s
      → (p : Permission) × IsTheirs user u id machine s p
        × (level_rank p.level ≡ best_level db user id machine s)
        × ((q : Permission) → IsTheirs user u id machine s q → rank q.level ≤ rank p.level)
  best_level-IsTheirs user id u machine s known named low =
      let groups : groups_of db user s ≡ u.groups = rw (known, groups_of) refl in
      let n = best_level db user id machine s - 1 in
      let (k, p, found, covers, mine, le) =
        best_level-row db user id machine s n (omega (arith, low)) in
      let below = row-le-best_level db user id k machine s p found covers mine in
      let best : level_rank p.level ≡ best_level db user id machine s =
        omega (arith, low, le, below) in
      (
        p,
        record {
          row = k;
          listed = found;
          held = IsHeld-is_mine user u p (subst (λ gs. is_mine user gs p ≡ true) groups mine);
          covers = covers;
        },
        best,
        λ q v.
            let yours =
              subst (λ gs. is_mine user gs q ≡ true) (sym groups)
                (is_mine-IsHeld user u q named v.held) in
            omega (
              arith,
              row-le-best_level db user id v.row machine s q v.listed v.covers yours,
              best,
              rank-level_rank db q.level,
              rank-level_rank db p.level,
            ),
      )

  -- A user who is no administrator, none of whose groups has the empty id, is shown only machines
  -- with a permission of theirs, or of a group of theirs, on the machine or its group, each with
  -- the level of such a permission, and none of these has a higher one.
  pub find_all_accessible-IsShown :
      (user id : String) (u : User) (machine : Machine) (shown : Option Shown) (s : Store db)
      → db.find user s.users ≡ some u
      → any (λ k. k =s= "") u.groups ≡ false
      → Memᴰ (id, machine, shown) (find_all_accessible db user Role.user s)
      → IsShown user u s (id, machine, shown)
  unfolding find_all_accessible
  find_all_accessible-IsShown user id u machine shown s known named m =
      let f : String × Machine → String × Machine × Option Shown =
        (λ row. (row.0, row.1, level_label (best_level db user row.0 row.1 s))) in
      let (row, listed, e) =
        mem_of_map f (id, machine, shown) (db.find_many (λ k v. is_listed db user k v s) s.machines)
          m in
      let (found, holds) =
        db.find_many_sound row.0 row.1 (λ k v. is_listed db user k v s) s.machines listed in
      let low = (is_listed-best_level user row.0 row.1 s).0 holds in
      let (p, theirs, best, highest) = best_level-IsTheirs user row.0 u row.1 s known named low in
      subst (λ t. IsShown user u s t) e
        (found, (p, theirs, ap level_label (sym best) ∙ level_label-level_rank p.level, highest))
