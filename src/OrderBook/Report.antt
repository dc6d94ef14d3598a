-- ===== src/OrderBook/Report.antt =====
-- src/orderbook.rs: what the fills of an execution say of the two orders and of the book.
use asteria.Base.{
  ◌≡◌, List, ◌∷◌, [], ◌++◌, some, Option, All, All-append, inl, inr, true, false, arith,
  Option-cases, map, lookup, bytes_eq,
}
use asteria.Domain.{Side, opposite, Order}
use asteria.Decimal.{Decimal, leb_dec, ltb_dec}
use asteria.OrderBook.Types.{Book, RawFill}
use asteria.OrderBook.Release.{◌>>=?◌}
use asteria.OrderBook.Cancel.{crosses}
use asteria.OrderBook.Best.{NoWorse}

module _ {D : Type 0} ⦃decimal : Decimal D⦄ where
  -- What is left of a number after the parts were taken from it one by one.
  abbrev pub consume : D → List D → Option D
  consume total [] = some total
  consume total (part ∷ parts) = decimal.checked_sub total part >>=? λ left. consume left parts

  pub consume-append :
      (total : D) (parts : List D) (part left rest : D)
      → consume total parts ≡ some left
      → decimal.checked_sub left part ≡ some rest
      → consume total (parts ++ part ∷ []) ≡ some rest
  consume-append total [] part left rest h k = let e : total ≡ left = cc in rw (e, k)
  consume-append total (p ∷ parts) part left rest h k =
      elim (Option-cases (decimal.checked_sub total p)) [
        | inl e ↦ absurd (ground arith)
        | inr (t, e) ↦ rw e (consume-append t parts part left rest (ground arith) k)
      ]

  -- The maker of a fill is an order of the book, and the fill is at its price.
  abbrev pub HasMaker : Book D → RawFill D → Type 0
  HasMaker book f =
      (maker : Order D) × (lookup f.maker_order_id book.orders ≡ some maker)
      × (f.maker_account_id ≡ maker.account_id)
      × (f.maker_side ≡ maker.side)
      × (f.price ≡ maker.limit_price)
      × (f.maker_leverage ≡ maker.leverage)

  -- A fill between the taker and an order of the book, of another account on the other side, at a
  -- price that the taker's limit admits.
  pub record GoodFill (book : Book D) (taker : Order D) (f : RawFill D) : Type 0 where
    pub maker : HasMaker book f
    pub other_account : bytes_eq f.maker_account_id f.taker_account_id ≡ false
    pub of_taker : (f.taker_order_id ≡ taker.id) × (f.taker_account_id ≡ taker.account_id)
    pub sides : (f.taker_side ≡ taker.side) × (f.maker_side ≡ opposite taker.side)
    pub admitted : crosses taker.side taker.limit_price f.price ≡ true
    pub positive : ltb_dec decimal.zero f.quantity ≡ true
    pub releases :
        (leb_dec decimal.zero f.maker_margin_release ≡ true)
        × (leb_dec decimal.zero f.taker_margin_release ≡ true)

  -- Earlier fills are at prices at least as good for the taker as later ones.
  abbrev pub BestFirst : Side → List (RawFill D) → Type 0
  BestFirst side [] = Unit
  BestFirst side (f ∷ fills) = All (λ g. NoWorse side f.price g.price) fills × BestFirst side fills

  pub BestFirst-append :
      (side : Side) (fills : List (RawFill D)) (f : RawFill D)
      → BestFirst side fills
      → All (λ g. NoWorse side g.price f.price) fills
      → BestFirst side (fills ++ f ∷ [])
  BestFirst-append side [] f h k = (tt, tt)
  BestFirst-append side (g ∷ fills) f h k = (
    All-append (λ x. NoWorse side g.price x.price) fills (f ∷ []) h.0 (k.0, tt),
    BestFirst-append side fills f h.1 k.1,
  )

  abbrev pub quantities : List (RawFill D) → List D
  quantities = map (λ f. f.quantity)

  abbrev pub taker_releases : List (RawFill D) → List D
  taker_releases = map (λ f. f.taker_margin_release)
