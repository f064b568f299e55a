-- ===== src/Mm/MapArea/Mapping.antt =====
-- `MapArea::map` of a framed area: each page gets a frame of its own.
use r_corev.Prelude.{
  ℕ, zero, suc, ◌+◌, ◌-◌, ◌*◌, ◌^◌, ◌≤◌, ◌<◌, ◌≡◌, ◌≢◌, ◌⊎◌, refl, sym, ap, ◌∙◌, true, false, Bool,
  none, some, List, ◌∷◌, ◌==◌, count, bit_or, Run, ok, ◌>>=◌, arith, Bool-cases, inl, inr,
}
use r_corev.Config.{page_size, minus_one}
use r_corev.Mm.Address.Pages.{range}
use r_corev.Mm.Frame.{usable_frames}
use r_corev.Mm.Pte
use r_corev.Mm.PageTable.Tree.{Label, Inv}
use r_corev.Mm.PageTable.Map.{lookup}
use r_corev.Mm.PageTable.Operations.{map_lem}
use r_corev.Mm.MapArea.{
  identical, framed, MapArea, Space, Mapped, insert, frame_alloc, drop_old, map_page, map_framed,
  map_one, map_loop, map,
}
use r_corev.Mm.MapArea.Frames.{frame_alloc_space}
use r_corev.Mm.MapArea.Added.{
  get, insert-old, get-insert_self, get-insert_ne, Added, Succeeds, apart,
}

map_one-framed :
    (vpn : ℕ) (area : MapArea) (s : Space)
    → area.map_type ≡ framed
    → (f : ℕ) (s1 : Space) → frame_alloc s ≡ (some f, s1)
    → (insert vpn f area.data_frames).0 ≡ none
    → map_one vpn area s
      ≡ map_page vpn f (record area { data_frames = (insert vpn f area.data_frames).1 }) s1
unfolding map_one map_framed drop_old
map_one-framed vpn area s k f s1 e o =
    ap
      (λ t. elim t [
        | identical ↦ map_page vpn vpn area s
        | framed ↦ map_framed vpn area (frame_alloc s)
      ])
      k
    ∙ ap (map_framed vpn area) e
    ∙ ap
        (λ x. drop_old x s1 >>= λ s'.
          map_page vpn f (record area { data_frames = (insert vpn f area.data_frames).1 }) s')
        o

map_one_lem :
    (lo vpn : ℕ) (label : Label) (held : List ℕ) (area : MapArea) (s : Space)
    → Inv lo s.pages.kernel s.pages.table.root_ppn label held
    → area.map_type ≡ framed
    → area.map_perm < 2 ^ 8
    → vpn < 2 ^ 27
    → 3 ≤ usable_frames s.pages.kernel.allocator
    → lookup s.pages vpn ≡ none
    → get vpn area.data_frames ≡ none
    → Succeeds lo vpn 1 label held area s (map_one vpn area s)
unfolding map_page count
map_one_lem lo vpn label held area s v k hp hv u free new =
    let g = frame_alloc_space lo s label held v (omega arith) in
    let step =
      map_one-framed vpn area s k g.frame g.after g.result
        (insert-old vpn g.frame area.data_frames new) in
    let m =
      map_lem lo vpn g.frame area.map_perm g.after.pages label (g.frame ∷ held) g.inv hv g.small hp
        (omega (arith, g.left)) (g.same vpn ∙ free) in
    let c = m.updated in
    let frames = (insert vpn g.frame area.data_frames).1 in
    record {
      after = record {
        status = 0;
        area = record area { data_frames = frames };
        space = record g.after { pages = m.after };
      };
      result = step ∙ rw m.result refl;
      status = refl;
      added = record {
        label' = c.label';
        held' = c.held';
        inv = c.inv;
        left = omega (arith, g.left, c.left);
        kind = k;
        perm = refl;
        bounds = refl;
        page = λ w a b.
            let same : w ≡ vpn = omega arith in
            let still = c.others g.frame 0 g.unlabelled (ground arith) in
            (
              g.frame,
              ap (λ x. get x frames) same ∙ get-insert_self vpn g.frame area.data_frames,
              ap (lookup m.after) same ∙ c.here,
              (still.1, still.2),
              (λ x e h p. omega (arith, g.fresh, h, ap (λ y. count y held) p)),
              g.zero,
            );
        distinct = λ w x f f' a b d. absurd (omega arith);
        elsewhere = λ w out.
            let ne : w ≢ vpn = apart out in
            (
              get-insert_ne vpn g.frame w area.data_frames ne,
              λ small. c.elsewhere w small ne ∙ g.same w,
            );
        others = λ x e h.
            let ne : x ≢ g.frame = λ p. omega (arith, g.fresh, h, ap (λ y. count y held) p) in
            let more : 0 < count x (g.frame ∷ held) = omega (arith, h) in
            (
              (λ i. (c.others x i e more).0 ∙ (g.others x i ne).0),
              (λ i. (g.others x i ne).1),
              (c.others x 0 e more).1,
              (c.others x 0 e more).2,
            );
      };
    }

-- The first page, then the others.
module _ {lo l n : ℕ} {label : Label} {held : List ℕ} {area a1 a2 : MapArea} {s s1 s2 : Space}
    (p : Added lo l 1 label held area a1 s s1) (q : Added lo (l + 1) n p.label' p.held' a1 a2 s1 s2)
    (small : l < 2 ^ 27) where
  -- What the first page has at the end.
  first_kept :
      (f : ℕ) × (get l a1.data_frames ≡ some f)
      × (get l a2.data_frames ≡ some f)
      × (lookup s2.pages l ≡ some (Pte.new f (bit_or area.map_perm Pte.flag_v)))
      × ((q.label' f ≡ none) × (0 < count f q.held'))
      × ((m : ℕ) → label m ≡ none → 0 < count m held → f ≢ m)
      × ((i : ℕ) → i < page_size → s2.bytes f i ≡ 0)
      × ((p.label' f ≡ none) × (0 < count f p.held'))
  first_kept =
      let (f, at, maps, mine, new, clean) = p.page l (omega arith) (omega arith) in
      let still = q.others f mine.0 mine.1 in
      let same = q.elsewhere l (inl (omega arith)) in
      (
        f,
        at,
        same.0 ∙ at,
        same.1 small ∙ maps,
        (still.2, still.3),
        new,
        (λ i h. still.1 i ∙ clean i h),
        mine,
      )

  Added-cons : Added lo l (suc n) label held area a2 s s2
  Added-cons = record {
    label' = q.label';
    held' = q.held';
    inv = q.inv;
    left = omega (arith, p.left, q.left);
    kind = q.kind;
    perm = q.perm ∙ p.perm;
    bounds = q.bounds ∙ p.bounds;
    page = λ w a b. elim (Bool-cases (w == l)) [
      | inl e ↦
          let (f, at, now, maps, mine, new, clean, before) = first_kept in
          let same : l ≡ w = ground arith in
          (
            f,
            ap (λ x. get x a2.data_frames) (sym same) ∙ now,
            ap (lookup s2.pages) (sym same) ∙ maps,
            mine,
            new,
            clean,
          )
      | inr e ↦
          let (f, at, maps, mine, new, clean) = q.page w (ground arith) (omega arith) in
          (
            f,
            at,
            maps ∙ ap (λ x. some (Pte.new f (bit_or x Pte.flag_v))) p.perm,
            mine,
            (λ m h c. let still = p.others m h c in new m still.2 still.3),
            clean,
          )
    ];
    distinct = λ w x f g a b c d e. elim (Bool-cases (w == l)) [
      | inl t ↦
          let (f0, at, now, maps, mine, new, clean, before) = first_kept in
          let (g0, at', maps', mine', new', clean') = q.page x (ground arith) (omega arith) in
          let same : w ≡ l = ground arith in
          let one : some f ≡ some f0 = sym d ∙ ap (λ y. get y a2.data_frames) same ∙ now in
          let two : some g ≡ some g0 = sym e ∙ at' in
          λ h.
            new' f0 before.0 before.1
              (let e1 : f ≡ f0 = cc in let e2 : g ≡ g0 = cc in sym e2 ∙ sym h ∙ e1)
      | inr t ↦ q.distinct w x f g (ground arith) b (omega arith) d e
    ];
    elsewhere = λ w out.
        let first : (w < l) ⊎ (l + 1 ≤ w) = elim out [
          | inl a ↦ inl a
          | inr a ↦ inr (omega arith)
        ] in
        let rest : (w < l + 1) ⊎ (l + 1 + n ≤ w) = elim out [
          | inl a ↦ inl (omega arith)
          | inr a ↦ inr (omega arith)
        ] in
        let e1 = p.elsewhere w first in
        let e2 = q.elsewhere w rest in (e2.0 ∙ e1.0, λ h. e2.1 h ∙ e1.1 h);
    others = λ m h c.
        let one = p.others m h c in
        let two = q.others m one.2 one.3 in
        ((λ i. two.0 i ∙ one.0 i), (λ i. two.1 i ∙ one.1 i), two.2, two.3);
  }

Added-nil :
    (lo l : ℕ) (label : Label) (held : List ℕ) (area : MapArea) (s : Space)
    → Inv lo s.pages.kernel s.pages.table.root_ppn label held
    → area.map_type ≡ framed
    → Added lo l 0 label held area area s s
Added-nil lo l label held area s v k = record {
  label' = label;
  held' = held;
  inv = v;
  left = omega arith;
  kind = k;
  perm = refl;
  bounds = refl;
  page = λ w a b. absurd (omega arith);
  distinct = λ w x f g a b c d e. absurd (omega arith);
  elsewhere = λ w out. (refl, λ h. refl);
  others = λ m h c. ((λ i. refl), (λ i. refl), h, c);
}

map_loop-next :
    (vpn : ℕ) (rest : List ℕ) (area : MapArea) (s : Space) (r r' : Mapped)
    → map_one vpn area s ≡ ok r
    → r.status ≡ 0
    → map_loop rest r.area r.space ≡ ok r'
    → map_loop (vpn ∷ rest) area s ≡ ok r'
unfolding map_loop
map_loop-next vpn rest area s r r' e z h =
    let f : Bool → Run Mapped =
      λ t. elim t [ true ↦ ok r | false ↦ map_loop rest r.area r.space ] in
    let go : (r.status == minus_one) ≡ false = ground (arith, z) in rw e (ap f go ∙ h)

map_loop_lem :
    (lo l n : ℕ) (label : Label) (held : List ℕ) (area : MapArea) (s : Space)
    → Inv lo s.pages.kernel s.pages.table.root_ppn label held
    → area.map_type ≡ framed
    → area.map_perm < 2 ^ 8
    → l + n ≤ 2 ^ 27
    → 3 * n ≤ usable_frames s.pages.kernel.allocator
    → ((w : ℕ) → l ≤ w → w < l + n → (lookup s.pages w ≡ none) × (get w area.data_frames ≡ none))
    → Succeeds lo l n label held area s (map_loop (range l n) area s)
unfolding map_loop
map_loop_lem lo l zero label held area s v k hp hl u free = record {
  after = record { status = 0; area = area; space = s };
  result = refl;
  status = refl;
  added = Added-nil lo l label held area s v k;
}
map_loop_lem lo l (suc n) label held area s v k hp hl u free =
    let start = free l (omega arith) (omega arith) in
    let one =
      map_one_lem lo l label held area s v k hp (omega arith) (omega arith) start.0 start.1 in
    let p = one.added in
    let still : (w : ℕ)
        → l + 1 ≤ w
        → w < l + 1 + n
        → (lookup one.after.space.pages w ≡ none) × (get w one.after.area.data_frames ≡ none) =
      λ w a b.
        let e = p.elsewhere w (inr a) in
        let f = free w (omega arith) (omega arith) in (e.1 (omega arith) ∙ f.0, e.0 ∙ f.1) in
    let rest =
      map_loop_lem lo (l + 1) n p.label' p.held' one.after.area one.after.space p.inv p.kind
        (omega (arith, p.perm)) (omega arith) (omega (arith, p.left)) still in
    record {
      after = rest.after;
      result =
          map_loop-next l (range (l + 1) n) area s one.after rest.after one.result one.status
            rest.result;
      status = rest.status;
      added = Added-cons p rest.added (omega arith);
    }

-- Mapping a framed area of `n` pages, of which none is mapped nor has a frame, succeeds in a well-formed
-- space with `3 * n` usable frames: each page then maps to a frame of its own, which was not held before and is cleaned,
-- with the permissions of the area; the other pages are as before, and the held frames that are no nodes keep
-- their contents. Page numbers have 27 bits and permissions 8.
pub map_area_lem :
    (lo n : ℕ) (label : Label) (held : List ℕ) (area : MapArea) (s : Space)
    → Inv lo s.pages.kernel s.pages.table.root_ppn label held
    → area.map_type ≡ framed
    → area.map_perm < 2 ^ 8
    → area.vpn_range.l + n ≡ area.vpn_range.r
    → area.vpn_range.r ≤ 2 ^ 27
    → 3 * n ≤ usable_frames s.pages.kernel.allocator
    → ((w : ℕ)
        → area.vpn_range.l ≤ w
        → w < area.vpn_range.r
        → (lookup s.pages w ≡ none) × (get w area.data_frames ≡ none))
    → Succeeds lo area.vpn_range.l n label held area s (map area s)
unfolding map
map_area_lem lo n label held area s v k hp e hl u free =
    let size : area.vpn_range.r - area.vpn_range.l ≡ n = omega arith in
    rw size (
      map_loop_lem lo area.vpn_range.l n label held area s v k hp (omega arith) u
        (λ w a b. free w a (omega arith)))
