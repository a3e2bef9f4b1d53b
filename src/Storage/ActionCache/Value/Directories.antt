-- ===== src/Storage/ActionCache/Value/Directories.antt =====
-- The traversal of a directory in the CAS: with a stack as deep as the directory it lists all
-- that is below, parents before children, in the order of the nodes.
use mathlib.Core.List.{append-nil, append_assoc}
use bb_remote_asset.Prelude.{
  ℕ, suc, ◌≡◌, refl, sym, ap, ◌∙◌, subst, Option, some, List, [], ◌∷◌, ◌++◌,
}
use bb_remote_asset.Prelude.Effect.{ok, Result, Exec, lift, ◌>>=◌, bind_step}
use bb_remote_asset.Storage.Messages.{Node, Directory}
use bb_remote_asset.Storage.Libraries.{Libraries, BlobAccess}
use bb_remote_asset.Storage.BlobStore.Refinement.{IsBlobMap}
use bb_remote_asset.Storage.ActionCache.Value.{
  get_directory, append_children, directory_node_to_directories, directory_to_tree,
}

module _ (l : Libraries) (size : ℕ) (f : l.Function) (view : l.Digest → Option l.Buffer) where
  -- The node's digest leads to the directory.
  pub record LeadsTo (n : Node) (d : Directory) : Type 0 where
    pub digest : l.Digest
    pub is_digest : l.new_digest_from_proto f n.digest ≡ ok digest
    pub buffer : l.Buffer
    pub is_there : view digest ≡ some buffer
    pub is_directory : l.to_directory buffer size ≡ ok d

  -- `Below k ns ds`: the nodes `ns` and all below them, at most `k` levels, are the directories
  -- `ds`, each before its children.
  pub data Below : ℕ → List Node → List Directory → Type 0 where
    nothing : {k : ℕ} → Below k [] []
    descend :
        {k : ℕ} {n : Node} {ns : List Node} {d : Directory} {ds es : List Directory}
        → LeadsTo n d
        → Below k d.directories ds
        → Below (suc k) ns es
        → Below (suc k) (n ∷ ns) ((d ∷ ds) ++ es)

module _ (l : Libraries) {W : Type 0} (cas : BlobAccess l.Digest l.Buffer W) (m : IsBlobMap cas)
    (size : ℕ) (f : l.Function) (view : l.Digest → Option l.Buffer) where
  -- The CAS holds what `view` says.
  abbrev pub Shows : W → Type 0
  Shows w = (d : l.Digest) → m.view w d ≡ view d

  abbrev visit : ℕ → Node → Exec W (List Directory)
  visit = directory_node_to_directories l cas size f

  -- The loop over the nodes, after `ds`.
  abbrev loop : ℕ → List Node → List Directory → Exec W (List Directory)
  loop k = append_children l cas size f (visit k)

  -- The action returns the value, and leaves the CAS as it is.
  record Returns {A : Type 0} (x : Exec W A) (w : W) (a : A) : Type 0 where
    is_value : (x w).0 ≡ ok a
    shows : Shows (x w).1

  Returns-lift :
      {A : Type 0} (r : Result A) (w : W) {a : A} → r ≡ ok a → Shows w → Returns (lift r) w a
  Returns-lift r w e shows = record { is_value = e; shows = shows }

  Returns-bind :
      {A B : Type 0} (x : Exec W A) (g : A → Exec W B) (w : W) {a : A} {b : B}
      → Returns x w a
      → ((u : W) → Shows u → Returns (g a) u b)
      → Returns (x >>= g) w b
  Returns-bind x g w {a} first rest =
      let e = bind_step x g {w = w} first.is_value in
      let r = rest (x w).1 first.shows in
      record {
        is_value = ap (λ y. y.0) e ∙ r.is_value;
        shows = subst Shows (sym (ap (λ y. y.1) e)) r.shows;
      }

  read-Returns :
      (n : Node) (d : Directory) (p : LeadsTo l size f view n d) (w : W)
      → Shows w
      → Returns (get_directory l cas size f p.digest) w d
  unfolding get_directory
  read-Returns n d p w shows =
      Returns-bind _ _ w
        (record {
          is_value = m.get_hit p.digest w p.buffer (shows p.digest ∙ p.is_there);
          shows = λ c. m.get_keeps p.digest c w ∙ shows c;
        })
        λ u. Returns-lift _ u p.is_directory

  node-Returns :
      (k : ℕ) (n : Node) (d : Directory) (ds : List Directory)
      → LeadsTo l size f view n d
      → ((u : W) → Shows u → Returns (loop k d.directories (d ∷ [])) u (d ∷ ds))
      → (w : W) → Shows w
      → Returns (visit (suc k) n) w (d ∷ ds)
  unfolding directory_node_to_directories
  node-Returns k n d ds p ih w shows =
      Returns-bind _ _ w (Returns-lift _ w p.is_digest shows)
        λ u shows. Returns-bind _ _ u (read-Returns n d p u shows) ih

  -- The loop appends what is below the nodes to what it has.
  loop-Returns :
      {k : ℕ} {ns : List Node} {ds : List Directory}
      → Below l size f view k ns ds
      → (seen : List Directory) (w : W) → Shows w
      → Returns (loop k ns seen) w (seen ++ ds)
  unfolding append_children
  loop-Returns nothing seen w shows = rw (append-nil seen) (Returns-lift (ok seen) w refl shows)
  loop-Returns (descend {k} {n} {ns} {d} {ds} {es} p below later) seen w shows =
      rw (← append_assoc seen (d ∷ ds) es) (
        Returns-bind _ _ w (node-Returns k n d ds p (loop-Returns below (d ∷ [])) w shows)
          (loop-Returns later (seen ++ (d ∷ ds))))

  -- With a stack as deep as the directory, `directoryToTree` returns the tree of all the
  -- directories below it, each before its children, and leaves the CAS as it is.
  pub directory_to_tree_complete :
      (stack : ℕ) (d : Directory) (ds : List Directory) (w : W)
      → Below l size f view stack d.directories ds
      → Shows w
      → ((directory_to_tree l cas size f stack d w).0
          ≡ ok (record { root = some d; children = ds }))
        × Shows (directory_to_tree l cas size f stack d w).1
  unfolding directory_to_tree
  directory_to_tree_complete stack d ds w below shows =
      let r : Returns (directory_to_tree l cas size f stack d) w
          (record { root = some d; children = ds }) =
        Returns-bind _ _ w (loop-Returns below [] w shows) λ u. Returns-lift _ u refl in
      (r.is_value, r.shows)
