-- ===== src/Realtime/Refinement.antt =====
-- The broker against its specification.
use sonarr.Common.{
  Option, ℕ, suc, ◌<◌, ltb, ◌==◌, ==_iff, Text, Bool, true, false, not, ◌&&◌, ◌||◌, List, [], ◌∷◌,
  none, some, ◌≡◌, refl, sym, ap, arith, inl, inr, Bool-cases, if◌then◌else◌, ◌∙◌, subst, length,
}
use sonarr.Realtime.{
  Message, Client, Broker, skips, set_client, new_broker, subscribe, delete_client, close_client,
  unsubscribe, receive, send, offer, offer_all, broadcast,
}
use sonarr.Realtime.Spec.{
  wants, others, has-others, Call, join, leave, tell, take, has, distinct, IsWalk, Spec, spec_new,
  keep, spec_call, spec_run, call, run,
}

-- The broker shows what the specification shows, to every client.
pub record Shows {Body : Type 0} (b : Broker Body) (t : Spec Body) : Type 0 where
  pub next_shown : b.next ≡ t.next
  pub client_shown : (j : ℕ) → b.client j ≡ t.client j
  pub live_shown : (j : ℕ) → has b.clients j ≡ t.live j
  pub panicked_shown : b.panicked ≡ t.panicked

-- A registered client is below the counter and open, and is registered once.
record Inv {Body : Type 0} (b : Broker Body) : Type 0 where
  below : (j : ℕ) → has b.clients j ≡ true → j < b.next
  open_ : (j : ℕ) → has b.clients j ≡ true → (b.client j).closed ≡ false
  single : distinct b.clients ≡ true

-- What a loop over distinct open clients leaves: each of them has kept the message.
module _ {Body : Type 0} (buf_size : ℕ) (msg : Message Body) where
  skips_lem : (f : Option (List Text)) (name : Text) → skips f name ≡ not (wants f name)
  unfolding skips
  skips_lem none name = refl
  skips_lem (some names) name = refl

  offer-open :
      (c : Client Body) → c.closed ≡ false → offer buf_size msg c ≡ some (keep buf_size msg c)
  unfolding offer send keep
  offer-open c o = rw (skips_lem c.filter msg.name) (elim (Bool-cases (wants c.filter msg.name)) [
    | inr e ↦ simp (e, o) refl
    | inl e ↦ elim (Bool-cases (ltb (length c.buffer) buf_size)) [
      | inl f ↦ simp (e, o, f) refl
      | inr f ↦ simp (e, o, f) refl
    ]
  ])

  keep-open : (c : Client Body) → (keep buf_size msg c).closed ≡ c.closed
  unfolding keep
  keep-open c = elim (Bool-cases (wants c.filter msg.name && ltb (length c.buffer) buf_size)) [
    | inl e ↦ simp e refl
    | inr e ↦ simp e refl
  ]

  record Told (is : List ℕ) (b b' : Broker Body) : Type 0 where
    kept : (j : ℕ) → b'.client j ≡ (if has is j then keep buf_size msg (b.client j) else b.client j)
    same_next : b'.next ≡ b.next
    same_clients : b'.clients ≡ b.clients
    same_panicked : b'.panicked ≡ b.panicked

  has_self : (i : ℕ) (is : List ℕ) → has (i ∷ is) i ≡ true
  has_self i is = ground arith

  distinct_cons :
      (i : ℕ) (is : List ℕ) → distinct (i ∷ is) ≡ true → (has is i ≡ false) × (distinct is ≡ true)
  distinct_cons i is d = ground arith

  -- Another client's slot is not touched.
  set_client_ne :
      (i j : ℕ) (is : List ℕ) (c : Client Body) (f : ℕ → Client Body)
      → has is i ≡ false
      → has is j ≡ true
      → set_client i c f j ≡ f j
  set_client_ne i j is c f h k = elim (Bool-cases (j == i)) [
    | inl e ↦ absurd (cc (h, k, ap (has is) ((==_iff j i).0 e)))
    | inr e ↦ simp e refl
  ]

  keep_step :
      (i j : ℕ) (is : List ℕ) (f : ℕ → Client Body)
      → has is i ≡ false
      → (if has is j
          then keep buf_size msg (set_client i (keep buf_size msg (f i)) f j)
          else set_client i (keep buf_size msg (f i)) f j)
        ≡ (if has (i ∷ is) j then keep buf_size msg (f j) else f j)
  keep_step i j is f h = elim (Bool-cases (i == j)) [
    | inl e ↦
        subst
          (λ x.
            (if has is x
              then keep buf_size msg (set_client i (keep buf_size msg (f i)) f x)
              else set_client i (keep buf_size msg (f i)) f x)
            ≡ (if has (i ∷ is) x then keep buf_size msg (f x) else f x))
          ((==_iff i j).0 e) (simp (h, (==_iff i i).1 refl) refl)
    | inr e ↦ simp (e, flip i j e) refl
  ]
    where
      flip : (a b : ℕ) → (a == b) ≡ false → (b == a) ≡ false
      flip a b n = ground arith

  offer_all-Told :
      (is : List ℕ) (b : Broker Body)
      → distinct is ≡ true
      → ((j : ℕ) → has is j ≡ true → (b.client j).closed ≡ false)
      → Told is b (offer_all buf_size msg is b)
  unfolding offer_all
  offer_all-Told [] b d o = record {
    kept = λ j. refl;
    same_next = refl;
    same_clients = refl;
    same_panicked = refl;
  }
  offer_all-Told (i ∷ is) b d o =
      subst
        (λ x. Told (i ∷ is) b (elim x [
          | none ↦ record b { panicked = true }
          | some c ↦ offer_all buf_size msg is (record b { client = set_client i c b.client })
        ]))
        (sym (offer-open (b.client i) (o i (has_self i is))))
        (let r =
            offer_all-Told is
              (record b { client = set_client i (keep buf_size msg (b.client i)) b.client })
              (distinct_cons i is d).1
              (λ j h.
                ap (λ c. c.closed) (set_client_ne i j is _ b.client (distinct_cons i is d).0 h)
                ∙ o j (has_tail i j is h)) in
          record {
            kept = λ j. r.kept j ∙ keep_step i j is b.client (distinct_cons i is d).0;
            same_next = r.same_next;
            same_clients = r.same_clients;
            same_panicked = r.same_panicked;
          })
    where
      has_tail : (i j : ℕ) (is : List ℕ) → has is j ≡ true → has (i ∷ is) j ≡ true
      has_tail i j is h = ground arith

others-distinct : (i : ℕ) (is : List ℕ) → distinct is ≡ true → distinct (others i is) ≡ true
others-distinct i [] d = refl
others-distinct i (x ∷ is) d = ground (arith, has-others i is x, others-distinct i is)

module _ {Body : Type 0} (buf_size : ℕ) (walk : ℕ → List ℕ → List ℕ) (w : IsWalk walk) where
  told :
      (k : ℕ) (msg : Message Body) (b : Broker Body)
      → Inv b
      → Told buf_size msg (walk k b.clients) b (broadcast buf_size (walk k) msg b)
  unfolding broadcast
  told k msg b v =
      offer_all-Told buf_size msg (walk k b.clients) b (w.once k b.clients v.single)
        (λ j h. v.open_ j (sym (w.same k b.clients j) ∙ h))

  -- After a broadcast every registered client has been offered the message once.
  told_client :
      (k : ℕ) (msg : Message Body) (b : Broker Body)
      → Inv b
      → (j : ℕ)
      → (broadcast buf_size (walk k) msg b).client j
        ≡ (if has b.clients j then keep buf_size msg (b.client j) else b.client j)
  told_client k msg b v j = rw (← w.same k b.clients j) ((told k msg b v).kept j)

  subscribe-Inv : (fs : List Text) (b : Broker Body) → Inv b → Inv (subscribe fs b)
  unfolding subscribe
  subscribe-Inv fs b v = record {
    below = λ j h. joined_below j h;
    open_ = λ j h. elim (Bool-cases (j == b.next)) [
      | inl e ↦ simp e refl
      | inr e ↦ simp e (v.open_ j (joined_old j h e))
    ];
    single = ground (arith, v.below b.next, v.single);
  }
    where
      joined_below : (j : ℕ) → has (b.next ∷ b.clients) j ≡ true → j < suc b.next
      joined_below j h = ground (arith, v.below j)

      joined_old :
          (j : ℕ)
          → has (b.next ∷ b.clients) j ≡ true
          → (j == b.next) ≡ false
          → has b.clients j ≡ true
      joined_old j h e = ground arith

  unsubscribe-Inv : (i : ℕ) (b : Broker Body) → Inv b → Inv (unsubscribe i b)
  unfolding unsubscribe delete_client close_client
  unsubscribe-Inv i b v = elim (Bool-cases (b.client i).closed) [
    | inl e ↦ simp e (record {
      below = λ j h. v.below j (left j h).0;
      open_ = λ j h. v.open_ j (left j h).0;
      single = others-distinct i b.clients v.single;
    })
    | inr e ↦ simp e (record {
      below = λ j h. v.below j (left j h).0;
      open_ = λ j h. simp (left j h).1 (v.open_ j (left j h).0);
      single = others-distinct i b.clients v.single;
    })
  ]
    where
      left :
          (j : ℕ)
          → has (others i b.clients) j ≡ true
          → (has b.clients j ≡ true) × ((j == i) ≡ false)
      left j h = ground (arith, has-others i b.clients j)

  broadcast-Inv :
      (k : ℕ) (msg : Message Body) (b : Broker Body)
      → Inv b
      → Inv (broadcast buf_size (walk k) msg b)
  broadcast-Inv k msg b v = record {
    below = λ j h. rw r.same_next (v.below j (was j h));
    open_ = λ j h.
        rw (told_client k msg b v j, was j h)
          (keep-open buf_size msg (b.client j) ∙ v.open_ j (was j h));
    single = rw r.same_clients v.single;
  }
    where
      r : Told buf_size msg (walk k b.clients) b (broadcast buf_size (walk k) msg b)
      r = told k msg b v

      was :
          (j : ℕ)
          → has (broadcast buf_size (walk k) msg b).clients j ≡ true
          → has b.clients j ≡ true
      was j h = rw (← r.same_clients) h

  receive-Inv : (i : ℕ) (b : Broker Body) → Inv b → Inv (receive i b)
  unfolding receive
  receive-Inv i b v = record {
    below = v.below;
    open_ = λ j h. elim (Bool-cases (j == i)) [
      | inl e ↦ simp e (ap (λ x. (b.client x).closed) (sym ((==_iff j i).0 e)) ∙ v.open_ j h)
      | inr e ↦ simp e (v.open_ j h)
    ];
    single = v.single;
  }

  call-Inv : (c : Call Body) (b : Broker Body) → Inv b → Inv (call buf_size walk c b)
  unfolding call
  call-Inv (join fs) b v = subscribe-Inv fs b v
  call-Inv (leave i) b v = unsubscribe-Inv i b v
  call-Inv (tell k msg) b v = broadcast-Inv k msg b v
  call-Inv (take i) b v = receive-Inv i b v

  -- Closing a closed client changes nothing.
  closed_again :
      (i j : ℕ) (f g : ℕ → Client Body)
      → ((x : ℕ) → f x ≡ g x)
      → (f i).closed ≡ true
      → f j ≡ set_client i (record (g i) { closed = true }) g j
  closed_again i j f g s e = elim (Bool-cases (j == i)) [
    | inl k ↦ simp k (
        ap f ((==_iff j i).0 k)
        ∙ s i
        ∙ ap (λ x. record (g i) { closed = x }) (sym (ap (λ c. c.closed) (s i)) ∙ e))
    | inr k ↦ simp k (s j)
  ]

  call-Shows :
      (c : Call Body) (b : Broker Body) (t : Spec Body)
      → Inv b
      → Shows b t
      → Shows (call buf_size walk c b) (spec_call buf_size c t)
  unfolding call spec_call subscribe unsubscribe delete_client close_client receive
  call-Shows (join fs) b t v s = record {
    next_shown = ap suc s.next_shown;
    client_shown = λ j. rw (s.next_shown, s.client_shown j) refl;
    live_shown = λ j. rw (s.next_shown, s.live_shown j) refl;
    panicked_shown = s.panicked_shown;
  }
  call-Shows (leave i) b t v s = elim (Bool-cases (b.client i).closed) [
    | inl e ↦ simp e (record {
      next_shown = s.next_shown;
      client_shown = λ j. closed_again i j b.client t.client s.client_shown e;
      live_shown = λ j. has-others i b.clients j ∙ ap (λ x. not (j == i) && x) (s.live_shown j);
      panicked_shown = rw (← s.client_shown i, e) (or_true t.panicked);
    })
    | inr e ↦ simp e (record {
      next_shown = s.next_shown;
      client_shown = λ j. rw (s.client_shown j, s.client_shown i) refl;
      live_shown = λ j. has-others i b.clients j ∙ ap (λ x. not (j == i) && x) (s.live_shown j);
      panicked_shown = rw (← s.client_shown i, e) (s.panicked_shown ∙ or_false t.panicked);
    })
  ]
    where
      or_true : (p : Bool) → true ≡ (p || true)
      or_true p = ground arith

      or_false : (p : Bool) → p ≡ (p || false)
      or_false p = ground arith
  call-Shows (tell k msg) b t v s = record {
    next_shown = r.same_next ∙ s.next_shown;
    client_shown = λ j. told_client k msg b v j ∙ (rw (s.live_shown j, s.client_shown j) refl);
    live_shown = λ j. rw r.same_clients (s.live_shown j);
    panicked_shown = r.same_panicked ∙ s.panicked_shown;
  }
    where
      r : Told buf_size msg (walk k b.clients) b (broadcast buf_size (walk k) msg b)
      r = told k msg b v
  call-Shows (take i) b t v s = record {
    next_shown = s.next_shown;
    client_shown = λ j. rw (s.client_shown j, s.client_shown i) refl;
    live_shown = s.live_shown;
    panicked_shown = s.panicked_shown;
  }

  run-Shows :
      (cs : List (Call Body)) (b : Broker Body) (t : Spec Body)
      → Inv b
      → Shows b t
      → Shows (run buf_size walk cs b) (spec_run buf_size cs t)
  unfolding run spec_run
  run-Shows [] b t v s = s
  run-Shows (c ∷ cs) b t v s = run-Shows cs _ _ (call-Inv c b v) (call-Shows c b t v s)

  -- After any history of calls, in whatever order each broadcast walks the map of clients, the broker
  -- is what its specification says: a broadcast adds its message once to the queue of each live
  -- client whose filter lets it through and whose queue has room, and changes no other client; a call
  -- panics exactly where a client is unsubscribed twice.
  pub run_refines :
      (cs : List (Call Body))
      → Shows (run buf_size walk cs new_broker) (spec_run buf_size cs spec_new)
  unfolding new_broker
  run_refines cs =
      run-Shows cs _ _ (record { below = λ j h. cc; open_ = λ j h. refl; single = refl })
        (record {
          next_shown = refl;
          client_shown = λ j. refl;
          live_shown = λ j. refl;
          panicked_shown = refl;
        })
