-- ===== src/Record/Order.antt =====
-- The order of records (Record.h) is total, and its equality is that of the fields.
use dynamic_extension.Base.{◌≡◌, ◌↔◌, ◌⊎◌, true, false, arith}
use dynamic_extension.Record.{Record, Wrapped, rec_lt, rec_eq, wrapped_lt}

pub rec_eq_iff : (a b : Record) → (rec_eq a b ≡ true) ↔ (a ≡ b)
unfolding rec_eq
rec_eq_iff a b = ground arith

pub rec_lt_irrefl : (a : Record) → rec_lt a a ≡ false
unfolding rec_lt
rec_lt_irrefl a = ground arith

pub rec_lt_trans : (a b c : Record) → rec_lt a b ≡ true → rec_lt b c ≡ true → rec_lt a c ≡ true
unfolding rec_lt
rec_lt_trans a b c h k = ground arith

pub rec_lt_total : (a b : Record) → (rec_lt a b ≡ true) ⊎ (a ≡ b) ⊎ (rec_lt b a ≡ true)
unfolding rec_lt
rec_lt_total a b = ground arith

pub rec_lt_asym : (a b : Record) → rec_lt a b ≡ true → rec_lt b a ≡ false
unfolding rec_lt
rec_lt_asym a b h = ground arith

-- The order on wrapped records that merging sorts by.
pub wrapped_lt_trans :
    (a b c : Wrapped) → wrapped_lt a b ≡ true → wrapped_lt b c ≡ true → wrapped_lt a c ≡ true
unfolding wrapped_lt
wrapped_lt_trans a b c h k = ground arith

pub wrapped_lt-below :
    (a b c : Wrapped) → wrapped_lt a b ≡ false → wrapped_lt b c ≡ false → wrapped_lt a c ≡ false
unfolding wrapped_lt
wrapped_lt-below a b c h k = ground arith

pub wrapped_lt_asym : (a b : Wrapped) → wrapped_lt a b ≡ true → wrapped_lt b a ≡ false
unfolding wrapped_lt
wrapped_lt_asym a b h = ground arith

pub wrapped_lt_irrefl : (a : Wrapped) → wrapped_lt a a ≡ false
unfolding wrapped_lt
wrapped_lt_irrefl a = ground arith

pub rec_lt_descends :
    (a b c : Record) → rec_lt a b ≡ false → rec_lt b c ≡ false → rec_lt a c ≡ false
unfolding rec_lt
rec_lt_descends a b c h k = ground arith

pub wrapped_lt-rec_lt : (a b : Wrapped) → wrapped_lt a b ≡ false → rec_lt a.rec b.rec ≡ false
unfolding wrapped_lt
wrapped_lt-rec_lt a b h = ground arith
