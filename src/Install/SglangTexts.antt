-- ===== src/Install/SglangTexts.antt =====
-- The code that the SGLang installer inserts.
use peek.Prelude.{[], ◌∷◌}
use peek.Install.Text.{Text, lines}

-- `QUEUE_AWARE_STRATEGY_CODE`
abbrev pub queue_aware_strategy_code : Text
queue_aware_strategy_code = lines (
    "" ∷ "" ∷ "class QueueAwareStrategy(EvictionStrategy):"
    ∷ "    \"\"\"Queue-aware eviction: protects blocks referenced by the waiting queue." ∷ ""
    ∷ "    Delegates scoring to ``peek.scheduler.queue_aware_eviction_priority``"
    ∷ "    so that the algorithm lives in peek core, not in the sglang patch." ∷ "    \"\"\"" ∷ ""
    ∷ "    def get_priority(self, node: \"TreeNode\") -> Tuple[float, float]:"
    ∷ "        from peek.offline.scheduler import queue_aware_eviction_priority"
    ∷ "        return queue_aware_eviction_priority(node)" ∷ [])

-- `MATCH_PREFIX_READONLY_METHOD`
abbrev pub match_prefix_readonly_method : Text
match_prefix_readonly_method = lines (
    "" ∷ "    # ------------------------------------------------------------------"
    ∷ "    # Read-only prefix matching (no LRU timestamp update)"
    ∷ "    # ------------------------------------------------------------------" ∷ ""
    ∷ "    def match_prefix_readonly(self, params: MatchPrefixParams) -> MatchResult:"
    ∷ "        \"\"\"Like match_prefix but without updating LRU timestamps." ∷ ""
    ∷ "        Used by Peek's scheduler to score cache state for all prefix"
    ∷ "        groups without poisoning eviction priority.  Only the groups"
    ∷ "        that are actually admitted should later get a real match_prefix"
    ∷ "        (via init_next_round_input) which refreshes their timestamps." ∷ "        \"\"\""
    ∷ "        key = params.key" ∷ "        key, _ = self.maybe_bigram_convert(key)" ∷ ""
    ∷ "        def empty_match_result():" ∷ "            return MatchResult("
    ∷ "                device_indices=torch.empty(" ∷ "                    (0,),"
    ∷ "                    dtype=torch.int64," ∷ "                    device=self.device,"
    ∷ "                )," ∷ "                last_device_node=self.root_node,"
    ∷ "                last_host_node=self.root_node," ∷ "            )" ∷ ""
    ∷ "        if self.disable or len(key) == 0:" ∷ "            return empty_match_result()" ∷ ""
    ∷ "        if self.page_size != 1:"
    ∷ "            page_aligned_len = len(key) // self.page_size * self.page_size"
    ∷ "            key = key[:page_aligned_len]" ∷ "" ∷ "        if len(key) == 0:"
    ∷ "            return empty_match_result()" ∷ ""
    ∷ "        value, last_node = self._match_prefix_helper(self.root_node, key, update_lru=False)"
    ∷ "        if value:" ∷ "            value = torch.cat(value)" ∷ "        else:"
    ∷ "            value = torch.empty((0,), dtype=torch.int64, device=self.device)"
    ∷ "        return MatchResult(" ∷ "            device_indices=value,"
    ∷ "            last_device_node=last_node," ∷ "            last_host_node=last_node,"
    ∷ "        )" ∷ [])

-- `QUEUE_REF_METHODS`
abbrev pub queue_ref_methods : Text
queue_ref_methods = lines (
    "" ∷ "    # ------------------------------------------------------------------"
    ∷ "    # Queue-aware eviction: reference counting"
    ∷ "    # ------------------------------------------------------------------" ∷ ""
    ∷ "    def inc_queue_ref(self, node: TreeNode) -> None:"
    ∷ "        \"\"\"Increment queue_ref_count on *node* and all ancestors up to root." ∷ ""
    ∷ "        Called when a waiting-queue request's prefix match lands on *node*,"
    ∷ "        indicating that every block on the path from root to *node* is needed"
    ∷ "        by at least one pending request." ∷ "        \"\"\""
    ∷ "        while node != self.root_node:" ∷ "            node.queue_ref_count += 1"
    ∷ "            node = node.parent" ∷ "" ∷ "    def dec_queue_ref(self, node: TreeNode) -> None:"
    ∷ "        \"\"\"Decrement queue_ref_count on *node* and all ancestors up to root.\"\"\""
    ∷ "        while node != self.root_node:"
    ∷ "            node.queue_ref_count = max(0, node.queue_ref_count - 1)"
    ∷ "            node = node.parent" ∷ "" ∷ "    def reset_all_queue_refs(self) -> None:"
    ∷ "        \"\"\"Reset queue_ref_count to 0 on every node in the tree." ∷ ""
    ∷ "        Called at the start of each scheduling cycle before recomputing"
    ∷ "        queue references from the current waiting queue." ∷ "        \"\"\""
    ∷ "        stack = [self.root_node]" ∷ "        while stack:" ∷ "            node = stack.pop()"
    ∷ "            node.queue_ref_count = 0" ∷ "            for child in node.children.values():"
    ∷ "                stack.append(child)" ∷ [])

-- `PEEK_ENGINE_HOOK`
abbrev pub peek_engine_hook : Text
peek_engine_hook = lines (
    "        # --- PeekEngine: delegate when queue-aware eviction is active ---"
    ∷ "        if not hasattr(self, '_peek_engine'):"
    ∷ "            from peek.offline.engine import PeekEngine" ∷ "            self._peek_engine = ("
    ∷ "                PeekEngine(self.tree_cache, self)"
    ∷ "                if PeekEngine.is_enabled(self.tree_cache) else None" ∷ "            )"
    ∷ "        if self._peek_engine is not None:"
    ∷ "            return self._peek_engine.run(waiting_queue, running_batch)"
    ∷ "        # --- stock SGLang below ---" ∷ [])

-- `PEEK_MATCHED_SKIP`
abbrev pub peek_matched_skip : Text
peek_matched_skip = lines (
    "            # PeekEngine: skip requests already matched at group level"
    ∷ "            if getattr(r, '_peek_matched', False):" ∷ "                continue" ∷ [])
