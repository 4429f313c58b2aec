-- ===== src/Archive/Index.antt =====
-- The index that the first pass of ValidateDataTar builds, against the headers it was built from.
use tx.Base.{
  ◌≡◌, ◌≢◌, refl, sym, ap, ◌∙◌, subst, Bool, true, false, not, ◌&&◌, none, some, List, [], ◌∷◌,
  ◌++◌, map, append_assoc, append-nil, map-append, ok-injective, arith, ok, bind-eq-ok, inl, inr,
  All, All-map, All-append, In, In-append_left, In-append_right, Bool-cases,
}
use tx.Dict.{lookup, insert, lookup-insert}
use tx.Text.{Text, is_empty, text_eq, text_eq_iff, text_eq→eq}
use tx.Archive.{Header, TarMember, is_link, MemberIndex, empty_index}
use tx.Archive.Members.{IsAdmitted, Adds, add_member-Adds}
use tx.Archive.RealPath.{NotLink}
use tx.Archive.Validate.{key_of, new_member, add_member, add_members}

abbrev pub key_of_header : Header → Text
key_of_header hdr = key_of hdr.name

abbrev pub Distinct : List Text → Type 0
Distinct [] = Unit
Distinct (k ∷ ks) = ¬ In k ks × Distinct ks

not-In-snoc : (j k : Text) (ks : List Text) → ¬ In j ks → j ≢ k → ¬ In j (ks ++ k ∷ [])
not-In-snoc j k [] n ne (inl e) = ne e
not-In-snoc j k [] n ne (inr i) = absurd i
not-In-snoc j k (x ∷ ks) n ne (inl e) = n (inl e)
not-In-snoc j k (x ∷ ks) n ne (inr i) = not-In-snoc j k ks (λ i'. n (inr i')) ne i

Distinct-snoc : (ks : List Text) (k : Text) → Distinct ks → ¬ In k ks → Distinct (ks ++ k ∷ [])
Distinct-snoc [] k d n = ((λ i. absurd i), tt)
Distinct-snoc (x ∷ ks) k d n =
    (not-In-snoc x k ks d.0 (λ e. n (inl (sym e))), Distinct-snoc ks k d.1 (λ i. n (inr i)))

-- The header has its entry.
pub record IsIndexed (idx : MemberIndex) (hdr : Header) : Type 0 where
  pub entry : TarMember
  pub found : lookup (key_of hdr.name) idx.by_name ≡ some entry
  pub made : new_member hdr (key_of hdr.name) ≡ ok entry

-- The entry `m` at `k` was made of one of the headers.
pub record Origin (hdrs : List Header) (k : Text) (m : TarMember) : Type 0 where
  pub header : Header
  pub among : In header hdrs
  pub key_is : key_of header.name ≡ k
  pub made : new_member header k ≡ ok m

Origin-append :
    (xs ys : List Header) (k : Text) (m : TarMember) → Origin xs k m → Origin (xs ++ ys) k m
Origin-append xs ys k m o = record {
  header = o.header;
  among = In-append_left o.header xs ys o.among;
  key_is = o.key_is;
  made = o.made;
}

-- `idx` is the index of the headers `hdrs`.
pub record IsIndexOf (idx : MemberIndex) (hdrs : List Header) : Type 0 where
  pub order_is : idx.order ≡ map key_of_header hdrs
  pub indexed : All (IsIndexed idx) hdrs
  pub admitted : All IsAdmitted hdrs
  pub distinct : Distinct (map key_of_header hdrs)
  pub root_no_link : NotLink (lookup [] idx.by_name)
  pub origin : (k : Text) (m : TarMember) → lookup k idx.by_name ≡ some m → Origin hdrs k m

-- A member that is a directory is no link.
new_member-root :
    (hdr : Header) (key : Text) (m : TarMember)
    → new_member hdr key ≡ ok m
    → m.is_dir ≡ true
    → is_link m ≡ false
unfolding new_member
new_member-root hdr key m e d = ground arith

fresh_key :
    (idx : MemberIndex) (k : Text) (hdrs : List Header)
    → All (IsIndexed idx) hdrs
    → lookup k idx.by_name ≡ none
    → ¬ In k (map key_of_header hdrs)
fresh_key idx k [] a n i = i
fresh_key idx k (h ∷ hdrs) a n (inl e) =
    cc (a.0.found, subst (λ j. lookup j idx.by_name ≡ none) e n)
fresh_key idx k (h ∷ hdrs) a n (inr i) = fresh_key idx k hdrs a.1 n i

lookup-insert_fresh :
    (idx idx' : MemberIndex) (k j : Text) (m entry : TarMember)
    → idx'.by_name ≡ insert k m idx.by_name
    → lookup k idx.by_name ≡ none
    → lookup j idx.by_name ≡ some entry
    → lookup j idx'.by_name ≡ some entry
lookup-insert_fresh idx idx' k j m entry e n f =
    ground (arith, lookup-insert k j m idx.by_name, text_eq_iff k j)

empty_of_eq_nil :
    (k : Text) (b : Bool) → text_eq k [] ≡ true → (is_empty k && not b) ≡ false → b ≡ true
unfolding text_eq is_empty
empty_of_eq_nil k b h r = ground arith

root_member :
    (hdr : Header) (a : IsAdmitted hdr)
    → text_eq (key_of hdr.name) [] ≡ true
    → is_link a.member ≡ false
root_member hdr a h =
    new_member-root hdr _ a.member a.kind (empty_of_eq_nil _ a.member.is_dir h a.root_is_dir)

module _ (idx idx' : MemberIndex) (hdr : Header) (adds : Adds idx hdr idx') where
  old_IsIndexed : (h : Header) → IsIndexed idx h → IsIndexed idx' h
  old_IsIndexed h i = record {
    entry = i.entry;
    found =
        lookup-insert_fresh idx idx' (key_of hdr.name) (key_of h.name) adds.admitted.member i.entry
          adds.by_name_is adds.fresh i.found;
    made = i.made;
  }

  new_IsIndexed : IsIndexed idx' hdr
  new_IsIndexed = record {
    entry = adds.admitted.member;
    found = ground (
      arith,
      adds.by_name_is,
      text_eq_iff (key_of hdr.name) (key_of hdr.name),
      lookup-insert (key_of hdr.name) (key_of hdr.name) adds.admitted.member idx.by_name,
    );
    made = adds.admitted.kind;
  }

  new_root_no_link : NotLink (lookup [] idx.by_name) → NotLink (lookup [] idx'.by_name)
  new_root_no_link n = rw adds.by_name_is (
      rw lookup-insert (elim (Bool-cases (text_eq (key_of hdr.name) [])) [
        | inl e ↦ rw e (root_member hdr adds.admitted e)
        | inr e ↦ rw e n
      ]))

  new_Origin :
      (done : List Header) (k : Text) (m : TarMember)
      → ((m' : TarMember) → lookup k idx.by_name ≡ some m' → Origin done k m')
      → lookup k idx'.by_name ≡ some m
      → Origin (done ++ hdr ∷ []) k m
  new_Origin done k m old e = elim (Bool-cases (text_eq (key_of hdr.name) k)) [
    | inl same ↦
        let here = text_eq→eq (key_of hdr.name) k same in
        let is_new : adds.admitted.member ≡ m = ground (
          arith,
          adds.by_name_is,
          lookup-insert (key_of hdr.name) k adds.admitted.member idx.by_name,
        ) in
        record {
          header = hdr;
          among = In-append_right hdr done (hdr ∷ []) (inl refl);
          key_is = here;
          made = subst (λ j. new_member hdr j ≡ ok m) here (adds.admitted.kind ∙ ap ok is_new);
        }
    | inr other_key ↦ Origin-append done (hdr ∷ []) k m (
        old m (
          ground (
            arith,
            adds.by_name_is,
            lookup-insert (key_of hdr.name) k adds.admitted.member idx.by_name,
          )))
  ]

  new_IsIndexOf : (done : List Header) → IsIndexOf idx done → IsIndexOf idx' (done ++ hdr ∷ [])
  new_IsIndexOf done b = record {
    order_is =
        adds.order_is
        ∙ ap (λ ks. ks ++ key_of hdr.name ∷ []) b.order_is
        ∙ sym (map-append key_of_header done (hdr ∷ []));
    indexed =
        All-append (IsIndexed idx') done (hdr ∷ [])
          (All-map (IsIndexed idx) (IsIndexed idx') done old_IsIndexed b.indexed)
          (new_IsIndexed, tt);
    admitted = All-append IsAdmitted done (hdr ∷ []) b.admitted (adds.admitted, tt);
    distinct = rw (map-append key_of_header done (hdr ∷ [])) (
        Distinct-snoc (map key_of_header done) (key_of hdr.name) b.distinct
          (fresh_key idx (key_of hdr.name) done b.indexed adds.fresh));
    root_no_link = new_root_no_link b.root_no_link;
    origin = λ k m e. new_Origin done k m (b.origin k) e;
  }

add_members-IsIndexOf :
    (idx : MemberIndex) (done hdrs : List Header) {idx' : MemberIndex}
    → IsIndexOf idx done
    → add_members idx hdrs ≡ ok idx'
    → IsIndexOf idx' (done ++ hdrs)
unfolding add_members
add_members-IsIndexOf idx done [] {idx'} b e =
    rw append-nil (subst (λ i. IsIndexOf i done) (ok-injective e) b)
add_members-IsIndexOf idx done (hdr ∷ hdrs) b e =
    let (next, s, later) = bind-eq-ok (add_member idx hdr) (λ i. add_members i hdrs) e in
    rw append_assoc at (
      add_members-IsIndexOf next (done ++ hdr ∷ []) hdrs
        (new_IsIndexOf idx next hdr (add_member-Adds idx hdr s) done b) later)

-- The first pass indexes each header under the key of its name, in order, and no key twice.
pub add_members_index :
    (hdrs : List Header) {idx : MemberIndex}
    → add_members empty_index hdrs ≡ ok idx
    → IsIndexOf idx hdrs
add_members_index hdrs = add_members-IsIndexOf empty_index [] hdrs empty_IsIndexOf
  where
    empty_IsIndexOf : IsIndexOf empty_index []
    empty_IsIndexOf = record {
      order_is = refl;
      indexed = tt;
      admitted = tt;
      distinct = tt;
      root_no_link = unfold lookup in tt;
      origin = λ k m e. unfold lookup in (cc);
    }
