-- ===== src/MemFs/History.antt =====
-- What every call of src/harlin/fs/mem_fs.c keeps: the tree, and the nodes that are lost.
use har_lin_kernel.Base.{
  ℕ, ◌<◌, ◌≡◌, ◌≢◌, refl, ap, sym, ◌∙◌, Bool, true, false, Option, none, some, List, arith, length,
  Bool-cases, inl, inr, drop, ◌++◌, length-set,
}
use native.Mathlib.Decide.{ℕ_discrete}
use har_lin_kernel.MemFs.{Node, Nodes, node, change, find_child}
use har_lin_kernel.MemFs.Calls.{with_payload}
use har_lin_kernel.MemFs.Chain.{has, frame}
use har_lin_kernel.MemFs.Valid.{IsValid, node_self, node_other, used-lt}
use har_lin_kernel.MemFs.Enter.{Entered}
use har_lin_kernel.MemFs.Enter.Tree.{new_tree, kept, new_kid}
use har_lin_kernel.MemFs.Drop.{Dropped}
use har_lin_kernel.MemFs.Drop.Tree.{tree_left, stays, left_kid}
use har_lin_kernel.MemFs.Walk.{Found, Found-used}
use har_lin_kernel.MemFs.Run.{Created, refused, created, Removed, removed, Written, written}

-- A node in use that no directory leads to.
pub record Lost {nodes : Nodes} (v : IsValid nodes) (c : ℕ) : Type 0 where
  pub in_use : (node nodes c).used ≡ true
  pub not_root : c ≢ 0
  pub no_kid : (d : ℕ) → has c (v.kids d) ≡ false

-- A later table: the links form trees, and nodes that were lost still are.
pub record Later {nodes : Nodes} (v : IsValid nodes) (nodes' : Nodes) : Type 0 where
  pub tree : IsValid nodes'
  pub lost : (c : ℕ) → Lost v c → Lost tree c

pub Later-refl : {nodes : Nodes} (v : IsValid nodes) → Later v nodes
Later-refl v = record { tree = v; lost = λ c l. l }

pub Later-trans :
    {nodes nodes' nodes'' : Nodes} {v : IsValid nodes}
    → (a : Later v nodes') → Later a.tree nodes''
    → Later v nodes''
Later-trans a b = record { tree = b.tree; lost = λ c l. b.lost c (a.lost c l) }

not_has : (c : ℕ) (xs : List ℕ) → (has c xs ≡ true → ⊥) → has c xs ≡ false
not_has c xs f = elim (Bool-cases (has c xs)) [ inl e ↦ absurd (f e) | inr e ↦ e ]

Entered-Later :
    {nodes nodes' : Nodes} {p n type : ℕ} {name : List ℕ} {mode : ℕ} (v : IsValid nodes)
    → Entered nodes p n type name mode nodes'
    → (node nodes p).used ≡ true
    → (node nodes n).used ≡ false
    → find_child nodes p name ≡ none
    → Later v nodes'
Entered-Later {nodes} {n = n} v e u f new =
    let apart : (c : ℕ) → Lost v c → c ≢ n =
      λ c l q. ground (arith, l.in_use, ap (λ a. (node nodes a).used) q, f) in
    record {
      tree = new_tree v e u f new;
      lost = λ c l. record {
        in_use = kept v e u f new (λ x. x.used) (λ o x. refl) c (apart c l) ∙ l.in_use;
        not_root = l.not_root;
        no_kid = λ d. not_has c _ (λ h. elim (new_kid v e u f new d c h) [
          | inl i ↦ ground (arith, i, l.no_kid d)
          | inr q ↦ apart c l q
        ]);
      };
    }

pub Created-Later :
    {nodes : Nodes} (v : IsValid nodes) {type mode : ℕ} {o : Option (ℕ × List ℕ)} {r : Bool × Nodes}
    → Created nodes type mode o r
    → Later v r.1
Created-Later v refused = Later-refl v
Created-Later v (created p n name nodes' e u f new x) = Entered-Later v x u f new

pub Dropped-Later :
    {nodes nodes' : Nodes} {p n : ℕ} (v : IsValid nodes)
    → has n (v.kids p) ≡ true
    → Dropped nodes p n (v.kids p) nodes'
    → Later v nodes'
Dropped-Later {p = p} {n = n} v h e =
    let apart : (c : ℕ) → Lost v c → c ≢ n =
      λ c l q. ground (arith, sym (ap (λ a. has a (v.kids p)) (sym q)) ∙ h, l.no_kid p) in
    record {
      tree = tree_left v h e;
      lost = λ c l. record {
        in_use = stays v h e (λ x. x.used) (λ o q x. refl) c (apart c l) ∙ l.in_use;
        not_root = l.not_root;
        no_kid = λ d. not_has c _ (λ i. ground (arith, (left_kid v h e d c i).0, l.no_kid d));
      };
    }

pub Removed-Later :
    {nodes : Nodes} (v : IsValid nodes) {o : Option ℕ} {r : Bool × Nodes}
    → Removed v o r
    → Later v r.1
Removed-Later v refused = Later-refl v
Removed-Later v (removed p n nodes' e h x) = Dropped-Later v h x

-- The same tree, for nodes that differ in their payload only.
pub record SameTree (nodes nodes' : Nodes) : Type 0 where
  pub size : length nodes' ≡ length nodes
  pub same :
      (a : ℕ)
      → (b : List ℕ) × (k : ℕ) × (node nodes' a
          ≡ record (node nodes a) { payload = b; payload_size = k })

pub write-SameTree :
    (nodes : Nodes) (n : ℕ) (bytes : List ℕ)
    → n < length nodes
    → SameTree nodes (change n (with_payload bytes) nodes)
write-SameTree nodes n bytes h = record {
  size = length-set nodes n _;
  same = λ a. elim (ℕ_discrete a n) [
    | yes q ↦ (
      bytes ++ drop (length bytes) (node nodes n).payload,
      length bytes,
      rw q (node_self nodes n (with_payload bytes) h),
    )
    | no q ↦ (
      (node nodes a).payload,
      (node nodes a).payload_size,
      node_other nodes n a (with_payload bytes) q,
    )
  ];
}

module _ {nodes nodes' : Nodes} (e : SameTree nodes nodes') where
  -- A field other than the payload is as before.
  pub same_field :
      {B : Type 0} (f : Node → B)
      → ((b : List ℕ) (k : ℕ) (x : Node) → f (record x { payload = b; payload_size = k }) ≡ f x)
      → (a : ℕ) → f (node nodes' a) ≡ f (node nodes a)
  same_field f still a = let (b, k, q) = e.same a in ap f q ∙ still b k (node nodes a)

  same_tree : IsValid nodes → IsValid nodes'
  same_tree v = record {
    size = e.size ∙ v.size;
    kids = v.kids;
    chain = λ d.
        rw (same_field (λ x. x.first_child) (λ b k x. refl) d)
          (frame (v.chain d) (λ a i. same_field (λ x. x.next_sibling) (λ b k x. refl) a));
    child = λ d c h.
        let k = v.child d c h in
        record {
          in_use = same_field (λ x. x.used) (λ b k x. refl) c ∙ k.in_use;
          below = same_field (λ x. x.parent) (λ b k x. refl) c ∙ k.below;
          not_root = k.not_root;
          not_self = k.not_self;
          in_dir = same_field (λ x. x.type) (λ b k x. refl) d ∙ k.in_dir;
        };
    depth = v.depth;
    deeper = v.deeper;
    fresh = λ d u.
        same_field (λ x. x.first_child) (λ b k x. refl) d
        ∙ v.fresh d (sym (same_field (λ x. x.used) (λ b k x. refl) d) ∙ u);
    unique = λ d c b h i q. v.unique d c b h i (
        sym (same_field (λ x. x.name) (λ b k x. refl) c)
        ∙ q
        ∙ same_field (λ x. x.name) (λ b k x. refl) b);
    root = same_field (λ x. x.used) (λ b k x. refl) 0 ∙ v.root;
  }

  pub SameTree-Later : (v : IsValid nodes) → Later v nodes'
  unfolding same_tree
  SameTree-Later v = record {
    tree = same_tree v;
    lost = λ c l. record {
      in_use = same_field (λ x. x.used) (λ b k x. refl) c ∙ l.in_use;
      not_root = l.not_root;
      no_kid = l.no_kid;
    };
  }

pub Written-Later :
    {nodes : Nodes} (v : IsValid nodes) {bytes : List ℕ} {o : Option ℕ} {r : Option ℕ × Nodes}
    → ((n : ℕ) → o ≡ some n → Found v n)
    → Written nodes bytes o r
    → Later v r.1
Written-Later v f refused = Later-refl v
Written-Later {nodes} v f (written n e t) =
    SameTree-Later
      (write-SameTree nodes n _
        (omega (arith, v.size, used-lt nodes n v.size (Found-used v (f n e)))))
      v
