-- ===== src/Tests/Kernel.antt =====
-- A small kernel, for concrete runs: links by name with the group that goes with each, and the
-- network namespace of the thread. `rdma` says whether it shows RDMA devices.
use dra_multi_things.Base.{
  sym, ◌≡◌, refl, ap, Str, str_eq, ◌==◌, if◌then◌else◌, lit, ℕ, Bool, true, false, ◌||◌, All,
  contains, List, [], ◌∷◌, Option, none, some, ◌⊎◌, inl, inr, arith, Option-cases,
}
use dra_multi_things.Base.Dict.{Dict, lookup, insert, erase, lookup-insert, lookup-erase}
use dra_multi_things.Base.Int.{pos}
use dra_multi_things.Netdev.Undo.{contains-ends}
use dra_multi_things.Rdma.Namespaces.{init_ns}
use dra_multi_things.System.Errors.{Error, errorf}
use dra_multi_things.System.Netlink.{
  Netlink, Link, attrs, ends, other, found, IsLawful, DeletesCleanly,
}

pub record State : Type 0 where
  pub links : Dict Str (List Str)
  pub namespace : ℕ

abbrev insert_all : List Str → List Str → Dict Str (List Str) → Dict Str (List Str)
insert_all [] g s = s
insert_all (x ∷ xs) g s = insert x g (insert_all xs g s)

abbrev erase_all : List Str → Dict Str (List Str) → Dict Str (List Str)
erase_all [] s = s
erase_all (x ∷ xs) s = erase x (erase_all xs s)

abbrev known : Option (List Str) → Bool
known none = false
known (some g) = true

abbrev failure : Error
failure = errorf "no such device" []

abbrev any_known : List Str → Dict Str (List Str) → Bool
any_known [] s = false
any_known (x ∷ xs) s = known (lookup x s) || any_known xs s

abbrev plain : Str → Link
plain n = other (record { name = n; index = 7; mtu = pos 1500; parent_index = 0 })

abbrev show_link : Str → Option (List Str) → Error ⊎ Link
show_link n none = inl failure
show_link n (some g) = inr (plain n)

abbrev add : Bool → Link → State → Option Error × State
add true l s = (some failure, s)
add false l s = (none, record s { links = insert_all (ends l) (ends l) s.links })

abbrev delete : Option (List Str) → State → Option Error × State
delete none s = (some failure, s)
delete (some g) s = (none, record s { links = erase_all g s.links })

abbrev pub group : State → Str → List Str
group s n = elim (lookup n s.links) [ none ↦ [] | some g ↦ g ]

abbrev pub kernel : Bool → Netlink
kernel rdma = record {
  State = State;
  NsHandle = ℕ;
  RdmaLink = Str;
  link_by_name = λ s n. show_link n (lookup n s.links);
  link_add = λ s l. add (any_known (ends l) s.links) l s;
  link_del = λ s l. delete (lookup (attrs l).name s.links) s;
  link_set_up = λ s l. (none, s);
  link_set_down = λ s l. (none, s);
  link_set_mtu = λ s l m. (none, s);
  ns_from_path = λ s path. inr (if path == init_ns then 0 else 1);
  ns_set = λ s h. (none, record s { namespace = h });
  rdma_link_by_name = λ s dev. if rdma then inr dev else inl failure;
  rdma_link_set_ns_fd = λ s l h. (none, s);
  rdma_system_mode = λ s. inr (lit "exclusive");
}

lookup-insert_all :
    (xs g : List Str) (s : Dict Str (List Str)) (n : Str)
    → lookup n (insert_all xs g s) ≡ (if contains xs n then some g else lookup n s)
lookup-insert_all [] g s n = refl
lookup-insert_all (x ∷ xs) g s n =
    ground (arith, lookup-insert_all xs g s n, lookup-insert n x g (insert_all xs g s))

lookup-erase_all :
    (xs : List Str) (s : Dict Str (List Str)) (n : Str)
    → lookup n (erase_all xs s) ≡ (if contains xs n then none else lookup n s)
lookup-erase_all [] s n = refl
lookup-erase_all (x ∷ xs) s n =
    ground (arith, lookup-erase_all xs s n, lookup-erase n x (erase_all xs s))

module _ (rdma : Bool) where
  name_found :
      (s : State) (n : Str) (l : Link) → (kernel rdma).link_by_name s n ≡ inr l → (attrs l).name ≡ n
  name_found s n l h = elim (Option-cases (lookup n s.links)) [
    | inl q ↦ absurd (ground arith)
    | inr (g, q) ↦ let e : plain n ≡ l = ground arith in sym (ap (λ k. (attrs k).name) e)
  ]

  add_cases :
      (b : Bool) (l : Link) (s : State)
      → ((b ≡ true) × (add b l s ≡ (some failure, s)))
        ⊎ ((b ≡ false)
            × (add b l s ≡ (none, record s { links = insert_all (ends l) (ends l) s.links })))
  add_cases true l s = inl (refl, refl)
  add_cases false l s = inr (refl, refl)

  any_known-All :
      (xs : List Str) (s : State)
      → any_known xs s.links ≡ false
      → All (λ n. found (kernel rdma) s n ≡ false) xs
  any_known-All [] s h = tt
  any_known-All (x ∷ xs) s h = (ground arith, any_known-All xs s (ground arith))

  pub is_lawful : IsLawful (kernel rdma) group
  is_lawful = record {
    name-found = name_found;
    add_fails = λ s l h n. elim (add_cases (any_known (ends l) s.links) l s) [
      | inl (q, e) ↦ rw e refl
      | inr (q, e) ↦ absurd (h (ap (λ o. o.0) e))
    ];
    add_fresh = λ s l h. elim (add_cases (any_known (ends l) s.links) l s) [
      | inl (q, e) ↦ absurd (ground arith)
      | inr (q, e) ↦ any_known-All (ends l) s q
    ];
    add_found = λ s l n h. elim (add_cases (any_known (ends l) s.links) l s) [
      | inl (q, e) ↦ absurd (ground arith)
      | inr (q, e) ↦ ground (arith, lookup-insert_all (ends l) (ends l) s.links n)
    ];
    add_group = λ s l h. elim (add_cases (any_known (ends l) s.links) l s) [
      | inl (q, e) ↦ absurd (ground arith)
      | inr (q, e) ↦
          ground
            (arith, lookup-insert_all (ends l) (ends l) s.links (attrs l).name, contains-ends l)
    ];
    del_fails = λ s l h n. elim (Option-cases (lookup (attrs l).name s.links)) [
      | inl q ↦ ground arith
      | inr (g, q) ↦ absurd (ground arith)
    ];
    del_found = λ s l n h. elim (Option-cases (lookup (attrs l).name s.links)) [
      | inl q ↦ absurd (ground arith)
      | inr (g, q) ↦ ground (arith, lookup-erase_all g s.links n)
    ];
    up_same = λ s l n. refl;
    up_group = λ s l n. refl;
    down_same = λ s l n. refl;
    mtu_same = λ s l m n. refl;
  }

  pub deletes_cleanly : DeletesCleanly (kernel rdma)
  deletes_cleanly s l h = elim (Option-cases (lookup (attrs l).name s.links)) [
    | inl q ↦ absurd (ground arith)
    | inr (g, q) ↦ ground arith
  ]
