-- ===== src/Epoch/Counts.antt =====
-- The counts of the epochs under each operation (include/framework/DynamicExtension.h).
use dynamic_extension.Base.{ℕ, ◌+◌, ◌<◌, ◌≡◌, ◌≢◌, refl, sym, ◌∙◌, List, ◌∷◌, arith}
use dynamic_extension.Buffer.Clients.{count, erase}
use dynamic_extension.Buffer.Heads.{count-erase, count-cons}
use dynamic_extension.Epoch.{
  Epochs, null_ptr, gain, drop, store_next, detach, store_previous, publish,
}
use dynamic_extension.Epoch.Jobs.{Counted}

-- A job that enters, and one that ends, on the current epoch and on the previous one.
module _ (s : Epochs) (jobs : List ℕ) (c : Counted s jobs) where
  pub enter_current :
      s.current.epoch ≢ 0 → Counted (record s { current = gain s.current }) (s.current.epoch ∷ jobs)
  enter_current h =
      let (a, b, d) = c.current_apart h in
      record {
        current = ground (arith, count-cons s.current.epoch s.current.epoch jobs, c.current);
        previous = ground (arith, count-cons s.previous.epoch s.current.epoch jobs, c.previous, a);
        cur = ground (arith, count-cons s.cur.epoch s.current.epoch jobs, c.cur, b);
        next = ground (arith, count-cons s.next.epoch s.current.epoch jobs, c.next, d);
        null = ground (arith, count-cons 0 s.current.epoch jobs, c.null, h);
        others = λ e p q r. ground (arith, count-cons e s.current.epoch jobs, c.others e p q r);
        known_current = c.known_current;
        known_previous = c.known_previous;
        known_cur = c.known_cur;
        known_next = c.known_next;
        current_apart = c.current_apart;
        previous_apart = c.previous_apart;
        cur_apart = c.cur_apart;
      }

  pub enter_previous :
      s.previous.epoch ≢ 0
      → s.current.epoch ≡ 0
      → Counted (record s { previous = gain s.previous }) (s.previous.epoch ∷ jobs)
  enter_previous h k =
      let (b, d) = c.previous_apart h in
      record {
        current = ground (arith, count-cons s.current.epoch s.previous.epoch jobs, c.current, h, k);
        previous = ground (arith, count-cons s.previous.epoch s.previous.epoch jobs, c.previous);
        cur = ground (arith, count-cons s.cur.epoch s.previous.epoch jobs, c.cur, b);
        next = ground (arith, count-cons s.next.epoch s.previous.epoch jobs, c.next, d);
        null = ground (arith, count-cons 0 s.previous.epoch jobs, c.null, h);
        others = λ e p q r. ground (arith, count-cons e s.previous.epoch jobs, c.others e p q r);
        known_current = c.known_current;
        known_previous = c.known_previous;
        known_cur = c.known_cur;
        known_next = c.known_next;
        current_apart = c.current_apart;
        previous_apart = c.previous_apart;
        cur_apart = c.cur_apart;
      }

  pub leave_current :
      0 < count s.current.epoch jobs
      → Counted (record s { current = drop s.current }) (erase s.current.epoch jobs)
  leave_current p =
      let h : s.current.epoch ≢ 0 = λ e. absurd (ground (arith, p, e, c.null)) in
      let (a, b, d) = c.current_apart h in
      record {
        current = ground (arith, count-erase s.current.epoch s.current.epoch jobs p, c.current);
        previous =
            ground (arith, count-erase s.current.epoch s.previous.epoch jobs p, c.previous, a);
        cur = ground (arith, count-erase s.current.epoch s.cur.epoch jobs p, c.cur, b);
        next = ground (arith, count-erase s.current.epoch s.next.epoch jobs p, c.next, d);
        null = ground (arith, count-erase s.current.epoch 0 jobs p, c.null, h);
        others = λ e i j k. ground (arith, count-erase s.current.epoch e jobs p, c.others e i j k);
        known_current = c.known_current;
        known_previous = c.known_previous;
        known_cur = c.known_cur;
        known_next = c.known_next;
        current_apart = c.current_apart;
        previous_apart = c.previous_apart;
        cur_apart = c.cur_apart;
      }

  pub leave_previous :
      0 < count s.previous.epoch jobs
      → Counted (record s { previous = drop s.previous }) (erase s.previous.epoch jobs)
  leave_previous p =
      let h : s.previous.epoch ≢ 0 = λ e. absurd (ground (arith, p, e, c.null)) in
      let (b, d) = c.previous_apart h in
      record {
        current = ground (
          arith,
          count-erase s.previous.epoch s.current.epoch jobs p,
          c.current,
          h,
          c.current_apart,
        );
        previous = ground (arith, count-erase s.previous.epoch s.previous.epoch jobs p, c.previous);
        cur = ground (arith, count-erase s.previous.epoch s.cur.epoch jobs p, c.cur, b);
        next = ground (arith, count-erase s.previous.epoch s.next.epoch jobs p, c.next, d);
        null = ground (arith, count-erase s.previous.epoch 0 jobs p, c.null, h);
        others = λ e i j k. ground (arith, count-erase s.previous.epoch e jobs p, c.others e i j k);
        known_current = c.known_current;
        known_previous = c.known_previous;
        known_cur = c.known_cur;
        known_next = c.known_next;
        current_apart = c.current_apart;
        previous_apart = c.previous_apart;
        cur_apart = c.cur_apart;
      }

  pub store_next-Counted : s.cur.epoch ≡ 0 → Counted (store_next s) jobs
  unfolding store_next
  store_next-Counted k = record {
    current = c.current;
    previous = c.previous;
    cur = c.cur;
    next =
        ground (arith, c.known_current, c.known_previous, c.known_cur, c.others (s.epoch_cnt + 2));
    null = c.null;
    others = c.others;
    known_current = omega (arith, c.known_current);
    known_previous = omega (arith, c.known_previous);
    known_cur = omega (arith, c.known_cur);
    known_next = omega arith;
    current_apart =
        λ h. let (a, b, d) = c.current_apart h in (a, b, omega (arith, c.known_current));
    previous_apart = λ h. let (b, d) = c.previous_apart h in (b, omega (arith, c.known_previous));
    cur_apart = λ h. omega (arith, c.known_cur);
  }

  pub retired-Counted : s.previous.refcnt ≡ 0 → Counted (record s { previous = null_ptr }) jobs
  retired-Counted z = record {
    current = c.current;
    previous = sym c.null;
    cur = c.cur;
    next = c.next;
    null = c.null;
    others = λ e i j k. ground (arith, c.previous, z, c.others e i);
    known_current = c.known_current;
    known_previous = omega arith;
    known_cur = c.known_cur;
    known_next = c.known_next;
    current_apart = λ h. let (a, b, d) = c.current_apart h in (h, b, d);
    previous_apart = λ h. absurd (h refl);
    cur_apart = c.cur_apart;
  }

  pub detach-Counted : s.cur.epoch ≡ 0 → Counted (detach s) jobs
  unfolding detach
  detach-Counted z = record {
    current = sym c.null;
    previous = c.previous;
    cur = c.current;
    next = c.next;
    null = c.null;
    others = λ e i j k. ground (arith, z, i, c.others e k j);
    known_current = omega arith;
    known_previous = c.known_previous;
    known_cur = c.known_current;
    known_next = c.known_next;
    current_apart = λ h. absurd (h refl);
    previous_apart =
        λ h. (λ e. (c.current_apart (λ z. h (e ∙ z))).0 (sym e), (c.previous_apart h).1);
    cur_apart = λ h. (c.current_apart h).2;
  }

  pub store_previous-Counted :
      s.previous.epoch ≡ 0 → s.current.epoch ≡ 0 → Counted (store_previous s) jobs
  unfolding store_previous
  store_previous-Counted z y = record {
    current = c.current;
    previous = c.cur;
    cur = sym c.null;
    next = c.next;
    null = c.null;
    others = λ e i j k. ground (arith, z, c.others e i);
    known_current = c.known_current;
    known_previous = c.known_cur;
    known_cur = omega arith;
    known_next = c.known_next;
    current_apart = λ h. absurd (h y);
    previous_apart = λ h. (h, c.cur_apart h);
    cur_apart = λ h. absurd (h refl);
  }

  pub publish-Counted :
      s.current.epoch ≡ 0 → s.cur.epoch ≡ 0 → s.next.epoch ≢ 0 → Counted (publish s) jobs
  unfolding publish
  publish-Counted z y n = record {
    current = c.next;
    previous = c.previous;
    cur = c.cur;
    next = sym c.null;
    null = c.null;
    others = λ e i j k. ground (arith, z, y, c.others e, k);
    known_current = c.known_next;
    known_previous = c.known_previous;
    known_cur = c.known_cur;
    known_next = omega arith;
    current_apart = λ h. (λ e. (c.previous_apart (λ z. n (e ∙ z))).1 (sym e), λ e. n (e ∙ y), n);
    previous_apart = λ h. ((c.previous_apart h).0, h);
    cur_apart = λ h. absurd (h y);
  }
