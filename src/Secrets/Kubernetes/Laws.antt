-- ===== src/Secrets/Kubernetes/Laws.antt =====
-- internal/secrets/kubernetes.go: what the operations do to the values that the cluster holds.
use mathlib.Core.Bool.{◌&&◌}
use scia.Base.{
  String, Bool, true, false, ◌==◌, Option, none, some, Result, ok, err, ok-injective, Error, lookup,
  insert, erase, lookup-insert, lookup-erase, if◌then◌else◌, ◌≡◌, ◌≢◌, refl, sym, subst, ◌∙◌, arith,
  eq_iff,
}
use scia.Secrets.Store.{Op, lift, after, return}
use scia.Secrets.Kubernetes.{
  Secret, new_secret, SecretsApi, KubernetesStore, data_of, read_key, secret_name, get, put, delete,
  get_in, put_in, delete_in, write_key, erase_key, erase_data, Data,
}

abbrev pub Cells : Type 0
Cells = String → String → String → Option String

-- One secret's cells are replaced.
abbrev pub with_secret : String → Secret → Cells → Cells
with_secret ns secret cells n m k =
    if (ns == n) && (secret.name == m) then lookup k (data_of secret.data_map) else cells n m k

-- The API as Kubernetes documents it, for `cells`, the value of a namespace's Secret under a key:
-- a read answers with the object and changes nothing, a write that succeeds replaces the object.
pub record IsSecretsApi {S : Type 0} (api : SecretsApi S) (cells : S → Cells) : Type 0 where
  pub get_none :
      (ns name : String) (s t : S)
      → api.get ns name s ≡ (t, ok none)
      → (cells t ≡ cells s) × ((k : String) → cells s ns name k ≡ none)
  pub get_some :
      (ns name : String) (s t : S) (o : Secret)
      → api.get ns name s ≡ (t, ok (some o))
      → (cells t ≡ cells s)
        × ((k : String) → cells s ns name k ≡ lookup k (data_of o.data_map))
        × (o.name ≡ name)
  pub create_ok :
      (ns : String) (o : Secret) (s t : S)
      → api.create ns o s ≡ (t, ok tt)
      → (n m k : String) → cells t n m k ≡ with_secret ns o (cells s) n m k
  pub update_ok :
      (ns : String) (o : Secret) (s t : S)
      → api.update ns o s ≡ (t, ok tt)
      → (n m k : String) → cells t n m k ≡ with_secret ns o (cells s) n m k

-- An operation that succeeded has succeeded at its first step.
after-eq-ok :
    {S A B : Type 0} (r : S × Result A) (f : A → Op S B) {t : S} {b : B}
    → after f r ≡ (t, ok b)
    → (s : S) × (a : A) × (r ≡ (s, ok a)) × (f a s ≡ (t, ok b))
after-eq-ok (s, ok a) f h = (s, a, refl, h)
after-eq-ok (s, err e) f h = absurd (err-ne-ok e _ (λ i. (h i).1))
  where
    err-ne-ok : {A : Type 0} (e : Error) (b : A) → err e ≢ ok b
    err-ne-ok e b h = cc

-- One cell is replaced.
abbrev pub with_cell : String → String → String → Option String → Cells → Cells
with_cell ns name key v cells n m k =
    if (ns == n) && (name == m) && (key == k) then v else cells n m k

-- An operation on the Secret of a user, once the user's Secret is known.
named-eq-ok :
    {S B : Type 0} (r : Result String) (f : String → Op S B) (name : String) {a t : S} {b : B}
    → r ≡ ok name
    → after f (lift r a) ≡ (t, ok b)
    → f name a ≡ (t, ok b)
named-eq-ok (ok m) f name {a} {t} {b} e h = subst (λ x. f x a ≡ (t, ok b)) (ok-injective e) h
named-eq-ok (err x) f name e h = cc

pick :
    (x y z : Bool) (new v old : Option String)
    → (x ≡ true → y ≡ true → new ≡ (if z then v else old))
    → (if x && y then new else old) ≡ (if x && y && z then v else old)
pick true true z new v old h = h refl refl
pick true false z new v old h = refl
pick false y z new v old h = refl

-- A Secret whose values are the old cells with one changed.
replaced :
    (o : Secret) (ns name key : String) (v : Option String) (c c' : Cells)
    → o.name ≡ name
    → c' ≡ c
    → ((k : String) → lookup k (data_of o.data_map) ≡ (if key == k then v else c ns name k))
    → (n m k : String) → with_secret ns o c' n m k ≡ with_cell ns name key v c n m k
replaced o ns name key v c c' e f d n m k =
    subst
      (λ x.
        (if (ns == n) && (o.name == m) then lookup k (data_of o.data_map) else x n m k)
        ≡ with_cell ns name key v c n m k)
      (sym f)
      (subst
        (λ x.
          (if (ns == n) && (x == m) then lookup k (data_of o.data_map) else c n m k)
          ≡ with_cell ns name key v c n m k)
        (sym e)
        (pick (ns == n) (name == m) (key == k) _ v (c n m k) (λ x y.
          d k ∙ (λ i. if key == k then v else c ((eq_iff ns n).0 x i) ((eq_iff name m).0 y i) k))))

-- A cell that is empty is removed already.
absent-cell :
    (ns name key : String) (c : Cells)
    → c ns name key ≡ none
    → (n m k : String) → c n m k ≡ with_cell ns name key none c n m k
absent-cell ns name key c h n m k = ground (arith, eq_iff ns n, eq_iff name m, eq_iff key k)

module _ {S : Type 0} (api : SecretsApi S) (cells : S → Cells) (w : IsSecretsApi api cells)
    (s : KubernetesStore) where
  put_in-cells :
      (name key value : String) (o : Option Secret) (a b t : S)
      → api.get s.namespace name a ≡ (b, ok o)
      → write_key api s key value name o b ≡ (t, ok tt)
      → (n m k : String)
      → cells t n m k ≡ with_cell s.namespace name key (some value) (cells a) n m k
  put_in-cells name key value none a b t g h n m k =
      let (same, absent) = w.get_none s.namespace name a b g in
      w.create_ok _ _ b t h n m k
      ∙ replaced (new_secret name s.namespace key value) s.namespace name key (some value) (cells a)
          (cells b) refl same (λ j. λ i. if key == j then some value else sym (absent j) i) n m k
  put_in-cells name key value (some o) a b t g h n m k =
      let (same, present, named) = w.get_some s.namespace name a b o g in
      w.update_ok _ _ b t h n m k
      ∙ replaced (record o { data_map = some (insert key value (data_of o.data_map)) }) s.namespace
          name key (some value) (cells a) (cells b) named same
          (λ j.
            lookup-insert key j value (data_of o.data_map)
            ∙ (λ i. if key == j then some value else sym (present j) i))
          n m k

  -- Over an API that behaves as IsSecretsApi says, a Put that succeeds sets the user's key in the
  -- user's Secret, and changes no other value of the cluster.
  pub put-cells :
      (user name key value : String) (a t : S)
      → secret_name s user ≡ ok name
      → put api s user key value a ≡ (t, ok tt)
      → (n m k : String)
      → cells t n m k ≡ with_cell s.namespace name key (some value) (cells a) n m k
  unfolding put
  put-cells user name key value a t e h =
      let h₀ = named-eq-ok (secret_name s user) (put_in api s key value) name e h in
      let (b, o, g, h₁) =
        after-eq-ok (api.get s.namespace name a) (write_key api s key value name) h₀ in
      put_in-cells name key value o a b t g h₁

  erase_data-cells :
      (name key : String) (o : Secret) (d : Option Data) (a b t : S)
      → o.data_map ≡ d
      → api.get s.namespace name a ≡ (b, ok (some o))
      → erase_data api s key o d b ≡ (t, ok tt)
      → (n m k : String) → cells t n m k ≡ with_cell s.namespace name key none (cells a) n m k
  erase_data-cells name key o none a b t e g h n m k =
      let (same, present, named) = w.get_some s.namespace name a b o g in
      (λ i. cells (sym h i).0 n m k)
      ∙ (λ i. same i n m k)
      ∙ absent-cell s.namespace name key (cells a) (present key ∙ (λ i. lookup key (data_of (e i))))
          n m k
  erase_data-cells name key o (some d) a b t e g h n m k =
      let (same, present, named) = w.get_some s.namespace name a b o g in
      w.update_ok _ _ b t h n m k
      ∙ replaced (record o { data_map = some (erase key d) }) s.namespace name key none (cells a)
          (cells b) named same
          (λ j. lookup-erase key j d ∙ (λ i.
            if key == j then none else (sym (present j ∙ (λ i. lookup j (data_of (e i))))) i))
          n m k

  delete_in-cells :
      (name key : String) (o : Option Secret) (a b t : S)
      → api.get s.namespace name a ≡ (b, ok o)
      → erase_key api s key o b ≡ (t, ok tt)
      → (n m k : String) → cells t n m k ≡ with_cell s.namespace name key none (cells a) n m k
  delete_in-cells name key none a b t g h n m k =
      let (same, absent) = w.get_none s.namespace name a b g in
      (λ i. cells (sym h i).0 n m k)
      ∙ (λ i. same i n m k)
      ∙ absent-cell s.namespace name key (cells a) (absent key) n m k
  delete_in-cells name key (some o) a b t g h n m k =
      erase_data-cells name key o o.data_map a b t refl g h n m k

  -- Over an API that behaves as IsSecretsApi says, a Delete that succeeds removes the user's key
  -- from the user's Secret, and changes no other value of the cluster.
  pub delete-cells :
      (user name key : String) (a t : S)
      → secret_name s user ≡ ok name
      → delete api s user key a ≡ (t, ok tt)
      → (n m k : String) → cells t n m k ≡ with_cell s.namespace name key none (cells a) n m k
  unfolding delete
  delete-cells user name key a t e h =
      let h₀ = named-eq-ok (secret_name s user) (delete_in api s key) name e h in
      let (b, o, g, h₁) = after-eq-ok (api.get s.namespace name a) (erase_key api s key) h₀ in
      delete_in-cells name key o a b t g h₁

  read_key-cells :
      (name key : String) (o : Option Secret) (a b : S)
      → api.get s.namespace name a ≡ (b, ok o)
      → (cells b ≡ cells a) × (read_key key o ≡ cells a s.namespace name key)
  read_key-cells name key none a b g =
      let (same, absent) = w.get_none s.namespace name a b g in (same, sym (absent key))
  read_key-cells name key (some o) a b g =
      let (same, present, named) = w.get_some s.namespace name a b o g in (same, sym (present key))

  -- A Get that succeeds reads the user's key of the user's Secret, and changes no value.
  pub get-cells :
      (user name key : String) (a t : S) (v : Option String)
      → secret_name s user ≡ ok name
      → get api s user key a ≡ (t, ok v)
      → (cells t ≡ cells a) × (v ≡ cells a s.namespace name key)
  unfolding get
  get-cells user name key a t v e h =
      let h₀ = named-eq-ok (secret_name s user) (get_in api s key) name e h in
      let (b, o, g, h₁) =
        after-eq-ok (api.get s.namespace name a) (λ o. return (read_key key o)) h₀ in
      let (same, r) = read_key-cells name key o a b g in
      ((λ i. cells (sym h₁ i).0) ∙ same, ok-injective (λ i. (sym h₁ i).1) ∙ r)

  -- Over an API that behaves as IsSecretsApi says, a Get that succeeds behind a Put of the same user
  -- and key that succeeded returns the value.
  pub get-put_value :
      (user name key value : String) (a b c : S) (v : Option String)
      → secret_name s user ≡ ok name
      → put api s user key value a ≡ (b, ok tt)
      → get api s user key b ≡ (c, ok v)
      → v ≡ some value
  get-put_value user name key value a b c v e h g =
      (get-cells user name key b c v e g).1
      ∙ put-cells user name key value a b e h s.namespace name key
      ∙ here s.namespace name
    where
      here : (n m : String) → with_cell n m key (some value) (cells a) n m key ≡ some value
      here n m = rw ((eq_iff n n).1 refl, (eq_iff m m).1 refl, (eq_iff key key).1 refl) refl
