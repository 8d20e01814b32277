-- ===== src/Install/VllmTexts.antt =====
-- The code that the vLLM installer inserts.
use peek.Prelude.{[], ◌∷◌}
use peek.Install.Text.{Text, lines}

-- `popleft_queue_aware`
abbrev pub queue_aware_method : Text
queue_aware_method = lines (
    "" ∷ "    def popleft_queue_aware(self, n: int) -> list[\"KVCacheBlock\"]:"
    ∷ "        \"\"\"Pop *n* blocks, preferring those with lowest queue_ref_count." ∷ ""
    ∷ "        Two-tier eviction:"
    ∷ "          Tier 1: blocks with queue_ref_count == 0 (unprotected, LRU order)"
    ∷ "          Tier 2: blocks with queue_ref_count > 0 (protected, lowest cost first)" ∷ ""
    ∷ "        Falls back to plain LRU (popleft_n) when no blocks are protected." ∷ "        \"\"\""
    ∷ "        if n > self.num_free_blocks:" ∷ "            raise ValueError("
    ∷ "                f\"Cannot pop {n} blocks from the free list \""
    ∷ "                f\"(only {self.num_free_blocks} free)\"" ∷ "            )" ∷ ""
    ∷ "        # Collect all free blocks with their queue_ref_count"
    ∷ "        unprotected: list[\"KVCacheBlock\"] = []"
    ∷ "        protected: list[\"KVCacheBlock\"] = []"
    ∷ "        curr = self.fake_free_list_head.next_free_block"
    ∷ "        while curr is not self.fake_free_list_tail and curr is not None:"
    ∷ "            if curr.queue_ref_count == 0:" ∷ "                unprotected.append(curr)"
    ∷ "            else:" ∷ "                protected.append(curr)"
    ∷ "            curr = curr.next_free_block" ∷ ""
    ∷ "        # If nothing is protected, just use fast LRU path" ∷ "        if not protected:"
    ∷ "            return self.popleft_n(n)" ∷ ""
    ∷ "        # Pick from unprotected first (LRU order), then protected (lowest cost)"
    ∷ "        # Cost = queue_ref_count (lower = cheaper to evict)"
    ∷ "        protected.sort(key=lambda b: b.queue_ref_count)"
    ∷ "        victims = unprotected[:n]" ∷ "        if len(victims) < n:"
    ∷ "            victims.extend(protected[: n - len(victims)])" ∷ ""
    ∷ "        for block in victims:" ∷ "            self.remove(block)" ∷ ""
    ∷ "        return victims" ∷ "" ∷ [])

-- `QUEUE_REF_METHODS`
abbrev pub vllm_queue_ref_methods : Text
vllm_queue_ref_methods = lines (
    "" ∷ "    # ------------------------------------------------------------------"
    ∷ "    # Queue-aware eviction: reference counting"
    ∷ "    # ------------------------------------------------------------------" ∷ ""
    ∷ "    def reset_queue_ref_counts(self) -> None:"
    ∷ "        \"\"\"Reset queue_ref_count to 0 on all blocks.\"\"\""
    ∷ "        for block in self.blocks:" ∷ "            block.queue_ref_count = 0" ∷ ""
    ∷ "    def inc_queue_ref_count(self, blocks: list[\"KVCacheBlock\"]) -> None:"
    ∷ "        \"\"\"Increment queue_ref_count on a list of cached blocks.\"\"\""
    ∷ "        for block in blocks:" ∷ "            if not block.is_null:"
    ∷ "                block.queue_ref_count += 1" ∷ "" ∷ [])

-- `PEEK_SCHEDULER_CODE`
abbrev pub peek_scheduler_code : Text
peek_scheduler_code = lines (
    "        # Peek: all feature gating is inside vllm_on_schedule"
    ∷ "        from peek.offline.scheduler import vllm_on_schedule as _peek_hook"
    ∷ "        _peek_hook(self)" ∷ "" ∷ [])
