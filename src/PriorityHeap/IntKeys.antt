-- ===== src/PriorityHeap/IntKeys.antt =====
-- `compare_int_keys` is a comparison as the heap needs it.
use statsite.Base.{◌≡◌, refl, arith, true}
use statsite.Base.Ints.{ℤ, pos, negsuc}
use statsite.PriorityHeap.{minus_one, plus_one, compare_int_keys}
use statsite.PriorityHeap.Order.{leq, IsOrder}

flip_plus : (a b : ℤ) → compare_int_keys a b ≡ plus_one → compare_int_keys b a ≡ minus_one
unfolding compare_int_keys
flip_plus (pos a) (pos b) e = ground arith
flip_plus (pos a) (negsuc b) e = ground arith
flip_plus (negsuc a) (pos b) e = ground arith
flip_plus (negsuc a) (negsuc b) e = ground arith

flip_minus : (a b : ℤ) → compare_int_keys a b ≡ minus_one → compare_int_keys b a ≡ plus_one
unfolding compare_int_keys
flip_minus (pos a) (pos b) e = ground arith
flip_minus (pos a) (negsuc b) e = ground arith
flip_minus (negsuc a) (pos b) e = ground arith
flip_minus (negsuc a) (negsuc b) e = ground arith

leq_self : (a : ℤ) → leq compare_int_keys a a ≡ true
unfolding compare_int_keys
leq_self (pos a) = ground arith
leq_self (negsuc a) = ground arith

leq_chain :
    (a b c : ℤ)
    → leq compare_int_keys a b ≡ true
    → leq compare_int_keys b c ≡ true
    → leq compare_int_keys a c ≡ true
unfolding compare_int_keys
leq_chain (pos a) (pos b) (pos c) p q = ground arith
leq_chain (pos a) (pos b) (negsuc c) p q = ground arith
leq_chain (pos a) (negsuc b) c p q = ground arith
leq_chain (negsuc a) b (pos c) p q = refl
leq_chain (negsuc a) (pos b) (negsuc c) p q = ground arith
leq_chain (negsuc a) (negsuc b) (negsuc c) p q = ground arith

-- compare_int_keys, the comparison of a heap that is given none, is a total order on signed
-- integers, told the same way from both sides.
compare_int_keys-IsOrder : IsOrder compare_int_keys
compare_int_keys-IsOrder = record {
  flip_plus = flip_plus;
  flip_minus = flip_minus;
  leq_refl = leq_self;
  leq_trans = leq_chain;
}
