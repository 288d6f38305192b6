-- ===== src/Net/Accepter/Closing.antt =====
-- Where the set-up of a descriptor fails: who closes it, and who goes on to use it.
use xuanqiong.Base.{
  ℕ, ◌*◌, ◌≡◌, refl, ap, ◌∙◌, inl, inr, Bool-cases, false, some, List, [], ◌∷◌, ◌++◌, append_assoc,
}
use xuanqiong.Net.Accepter.{
  SocketOption, reuse_address, send_buffer, receive_buffer, keep_alive, no_delay, Call, socket,
  set_option, bind, listen, accept, set_flags, close, Kernel, Setup, ready, exited, setsocketopt,
  open_accepter, accept_fd,
}

-- What the constructor of `Accepter` comes to, once it has a socket.
abbrev pub Opened : ℕ → ℕ → ℕ → Setup → Type 0
Opened fd port backlog (ready d calls) =
    (d ≡ fd) × (ys : List Call) × (calls ≡ (ys ++ bind fd port ∷ []) ++ listen fd backlog ∷ [])
Opened fd port backlog (exited calls) = (ys : List Call) × (calls ≡ ys ++ close fd ∷ [])

module _ (kernel : Kernel) where
  -- Whatever calls the kernel refuses: once it has a socket, the constructor of `Accepter` comes
  -- to an end in which either that descriptor is ready, and the last two calls bound it to the
  -- port on any interface and made it listen with the backlog, in this order, or the program
  -- exits, and the last call closed that descriptor.
  pub open_accepter-Opened :
      (fd port backlog : ℕ) → Opened fd port backlog (open_accepter kernel (some fd) port backlog)
  unfolding open_accepter
  open_accepter-Opened fd port backlog =
      let first = setsocketopt kernel fd (reuse_address 1) (socket ∷ []) in
      elim (Bool-cases (kernel first (bind fd port))) [
        | inr e ↦ rw e (first ++ bind fd port ∷ [], refl)
        | inl e ↦ rw e (
            let second = first ++ bind fd port ∷ [] in
            elim (Bool-cases (kernel second (listen fd backlog))) [
              | inl f ↦ rw f (refl, first, refl)
              | inr f ↦ rw f (second ++ listen fd backlog ∷ [], refl)
            ])
      ]

  -- An option set straight after the descriptor was closed.
  setsocketopt_refused :
      (fd : ℕ) (o : SocketOption) (cs : List Call)
      → kernel (cs ++ close fd ∷ []) (set_option fd o) ≡ false
      → setsocketopt kernel fd o (cs ++ close fd ∷ [])
        ≡ ((cs ++ close fd ∷ []) ++ set_option fd o ∷ []) ++ close fd ∷ []
  unfolding setsocketopt
  setsocketopt_refused fd o cs h = rw h refl

  -- Let the kernel refuse to set the flags of an accepted descriptor, and refuse to set an option
  -- of it straight after it was closed. Then `accept` returns that descriptor all the same, and
  -- has closed it five times: after the flags, and after each of the four options that it still
  -- tried to set.
  pub accept_returns_closed :
      (sockfd nodelay fd : ℕ) (calls : List Call)
      → kernel (calls ++ accept sockfd ∷ []) (set_flags fd) ≡ false
      → ((cs : List Call) (o : SocketOption)
          → kernel (cs ++ close fd ∷ []) (set_option fd o) ≡ false)
      → accept_fd kernel sockfd nodelay (some fd) calls ≡ (
        some fd,
        calls
            ++ (accept sockfd
                ∷ set_flags fd
                ∷ close fd
                ∷ set_option fd (send_buffer (512 * 1024))
                ∷ close fd
                ∷ set_option fd (receive_buffer (512 * 1024))
                ∷ close fd
                ∷ set_option fd (keep_alive 1)
                ∷ close fd
                ∷ set_option fd (no_delay nodelay)
                ∷ close fd
                ∷ []),
      )
  unfolding accept_fd
  accept_returns_closed sockfd nodelay fd calls e h =
      let set = setsocketopt kernel fd in
      let refused = λ (o : SocketOption) (cs : List Call). setsocketopt_refused fd o cs (h cs o) in
      let n = 512 * 1024 in
      let a = (calls ++ accept sockfd ∷ []) ++ set_flags fd ∷ [] in
      let b = (a ++ close fd ∷ []) ++ set_option fd (send_buffer n) ∷ [] in
      let c = (b ++ close fd ∷ []) ++ set_option fd (receive_buffer n) ∷ [] in
      let d = (c ++ close fd ∷ []) ++ set_option fd (keep_alive 1) ∷ [] in
      ap (λ t. (some fd, t))
        (ap
            (λ t.
              set (no_delay nodelay)
                (set (keep_alive 1) (set (receive_buffer n) (set (send_buffer n) t))))
            {y = a ++ close fd ∷ []} (rw e refl)
          ∙ ap (λ t. set (no_delay nodelay) (set (keep_alive 1) (set (receive_buffer n) t)))
              (refused (send_buffer n) a)
          ∙ ap (λ t. set (no_delay nodelay) (set (keep_alive 1) t)) (refused (receive_buffer n) b)
          ∙ ap (set (no_delay nodelay)) (refused (keep_alive 1) c)
          ∙ refused (no_delay nodelay) d
          ∙ simp append_assoc)
